-- ===== src/IntegrationTests/Servers.antt =====
-- A server that stands in for mempool.space, as wiremock does in the tests, and a client of it.
use bipa_coding_challenge.Common.{
  ℕ, ◌++◌, ◌&&◌, Text, codes, text_eq, ltb, leb, if◌then◌else◌, Result, ok, err, arith,
}
use bipa_coding_challenge.Source.Mempool.{Response, Reqwest}

-- `ResponseTemplate`: the status, the body and the delay, in seconds.
pub record Template : Type 0 where
  pub code : ℕ
  pub body : Text
  pub delay : ℕ

-- What listens at the server's address.
pub data Upstream : Type 0 where
  mounted : Template → Upstream
  nobody : Upstream

abbrev pub rankings_path : Text
rankings_path = codes "/api/v1/lightning/nodes/rankings/connectivity"

abbrev pub json_body : Text → Template
json_body body = record { code = 200; body = body; delay = 0 }

-- `ResponseTemplate::new(code)`, with a body or without
abbrev pub template : ℕ → Text → Template
template code body = record { code = code; body = body; delay = 0 }

-- The server's address.
abbrev pub uri : Text
uri = codes "http://127.0.0.1:41234"

abbrev pub timed_out : Text
timed_out = codes "operation timed out"

abbrev reply : Template → Result Response Text
reply t = ok (record { code = t.code; bytes = ok t.body })

abbrev send : ℕ → Text → Upstream → Result Response Text
send timeout url nobody = err (codes "connection refused")
send timeout url (mounted t) =
    if text_eq url (uri ++ rankings_path) && ltb t.delay timeout
    then reply t
    else if text_eq url (uri ++ rankings_path)
    then err timed_out
    else reply (template 404 (codes ""))

abbrev pub wiremock_reqwest : Reqwest
wiremock_reqwest = record {
  Url = Text;
  HttpClient = Text × ℕ;
  Network = Upstream;
  build = λ agent timeout. ok (agent, timeout);
  send = λ http url upstream. (send http.1 url upstream, upstream);
  is_success = λ n. leb 200 n && ltb n 300;
  is_success_iff = λ n. (λ h. ground arith, λ h. ground arith);
}
