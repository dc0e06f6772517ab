-- ===== src/Tests/Outside.antt =====
-- Concrete stand-ins for the code outside the repository: chrono, serde_json, reqwest, axum,
-- tower-http, the parsers of URLs and addresses, sqlx's pool, and a scripted source.
use bipa_coding_challenge.Common.{
  ℕ, zero, suc, ◌≡◌, refl, Bool, true, false, ◌&&◌, Option, none, some, Text, List, [], ◌∷◌, ◌++◌,
  map, codes, ltb, leb, ◌==◌, if◌then◌else◌, Result, ok, err, Call, returned, panicked, arith,
}
use bipa_coding_challenge.Common.Int.{ℤ, pos, negsuc, is_i64}
use bipa_coding_challenge.Std.Decimal.{decimal}
use bipa_coding_challenge.Std.ParseInt.{ParseIntError, parse_u64}
use bipa_coding_challenge.Std.ParseInt.Laws.{parse_u64-decimal}
use bipa_coding_challenge.Domain.{Node}
use bipa_coding_challenge.Domain.Time.{Chrono, ChronoLaws, InRfc3339Years}
use bipa_coding_challenge.Source.{SourceError, NodeSource}
use bipa_coding_challenge.Source.Dto.{MempoolNodeDto, SerdeJson, SerdeJsonLaws}
use bipa_coding_challenge.Source.Mempool.{Response, Reqwest}
use bipa_coding_challenge.Storage.{SqlxError, configuration, io, inconsistent}
use bipa_coding_challenge.Storage.Connect.{Sqlx}
use bipa_coding_challenge.Http.Response.{HttpResponse, no_body}
use bipa_coding_challenge.Http.Router.{
  Method, get, head, other, Endpoint, find_route, Dispatch, matched, no_route, wrong_method, Axum,
  TowerHttp, Served,
}
use bipa_coding_challenge.Config.{Net}
use bipa_coding_challenge.Config.Errors.{DefaultsParse}

-- Unix seconds, printed with their sign, in chrono's range.
abbrev pub in_range : ℤ → Bool
in_range (pos n) = ltb n 8_210_266_876_800
in_range (negsuc n) = ltb n 8_334_601_228_800

abbrev pub print_seconds : ℤ → Text
print_seconds (pos n) = b'+' ∷ decimal n
print_seconds (negsuc n) = b'-' ∷ decimal n

abbrev signed : Bool → Result ℕ ParseIntError → Option ℤ
signed true (ok n) = some (negsuc n)
signed false (ok n) = some (pos n)
signed negative (err _) = none

abbrev pub parse_seconds : Text → Option ℤ
parse_seconds [] = none
parse_seconds (c ∷ s) = signed (c == b'-') (parse_u64 s)

abbrev pub seconds_chrono : Chrono
seconds_chrono = record {
  Instant = ℤ;
  from_timestamp = λ s n. if in_range s then some s else none;
  to_rfc3339_opts = λ t format z. print_seconds t;
}

pub seconds_parse :
    (s t : ℤ)
    → InRfc3339Years s
    → (if in_range s then some s else none) ≡ some t
    → parse_seconds (print_seconds t) ≡ some t
seconds_parse s (pos n) years h = ground (arith, parse_u64-decimal n)
seconds_parse s (negsuc n) years h = ground (arith, parse_u64-decimal n)

abbrev pub seconds_laws : ChronoLaws seconds_chrono
seconds_laws = record {
  timestamp = λ t. t;
  parse_from_rfc3339 = parse_seconds;
  timestamp-from = λ s n t h. ground arith;
  parse-print = λ s t years h. seconds_parse s t years h;
}

-- A value is a record or is not one; `[` starts an array, of one record for each byte.
abbrev pub to_dto : Result MempoolNodeDto Text → Result MempoolNodeDto Text
to_dto (ok dto) = if is_i64 dto.capacity then ok dto else err (codes "number out of range")
to_dto (err m) = err m

abbrev pub byte_record : ℕ → Result MempoolNodeDto Text
byte_record zero = err (codes "missing field `publicKey`")
byte_record (suc n) =
    ok (record { public_key = b'k' ∷ n ∷ []; alias = []; capacity = pos n; first_seen = pos n })

abbrev pub byte_array : List ℕ → Result (List (Result MempoolNodeDto Text)) Text
byte_array [] = err (codes "EOF while parsing a value")
byte_array (b ∷ bytes) =
    if b == b'[' then ok (map byte_record bytes) else err (codes "invalid type")

abbrev pub bytes_json : SerdeJson
bytes_json = record {
  Value = Result MempoolNodeDto Text;
  from_value = to_dto;
  from_slice = byte_array;
}

abbrev pub bytes_laws : SerdeJsonLaws bytes_json
bytes_laws = record { capacity_i64 = λ v dto h. ground arith }

-- A network that has its answers ready.
abbrev pub answer : List (Result Response Text) → Result Response Text × List (Result Response Text)
answer [] = (err (codes "connection refused"), [])
answer (r ∷ rest) = (r, rest)

abbrev pub scripted_reqwest : Reqwest
scripted_reqwest = record {
  Url = Text;
  HttpClient = Text × ℕ;
  Network = List (Result Response Text);
  build = λ agent timeout. ok (agent, timeout);
  send = λ http url network. answer network;
  is_success = λ n. leb 200 n && ltb n 300;
  is_success_iff = λ n. (λ h. ground arith, λ h. ground arith);
}

-- A source that has its answers ready.
abbrev pub Answer : Type 0
Answer = Call (Result (List (Node ℤ)) SourceError)

abbrev pub next_answer : List Answer → Answer × List Answer
next_answer [] = (panicked (codes "no answer left"), [])
next_answer (a ∷ rest) = (a, rest)

abbrev pub scripted_source : NodeSource ℤ
scripted_source = record { State = List Answer; fetch_nodes = next_answer }

abbrev choose : Method → Option Endpoint → Dispatch
choose m none = no_route
choose get (some e) = matched e
choose head (some e) = matched e
choose (other verb) (some e) = wrong_method

abbrev sent_by : Method → HttpResponse → HttpResponse
sent_by get r = r
sent_by head r = record r { body = no_body }
sent_by (other verb) r = r

abbrev pub table_axum : Axum
table_axum = record {
  dispatch = λ table m path. choose m (find_route path table);
  wrong_method_response = record { status = 405; body = no_body };
  dispatch-get = λ table path e h. rw h refl;
  dispatch-missing = λ table m path h. rw h refl;
  dispatch-other = λ table verb path e h. rw h refl;
  wrong_method_status = refl;
  sent = sent_by;
  sent-get = λ r. refl;
  sent-head = λ r. refl;
  sent-other = λ verb r h. refl;
}

abbrev catch : (Text → HttpResponse) → Served → Served
catch f (returned r, t) = (returned r, t)
catch f (panicked m, t) = (returned (f m), t)

abbrev limited : ℕ → ℕ → Served → Served
limited code limit (r, t) =
    if ltb limit t then (returned (record { status = code; body = no_body }), limit) else (r, t)

abbrev pub plain_tower : TowerHttp
plain_tower = record {
  catch_panic = catch;
  timeout = limited;
  trace = λ s. s;
  catch_panic-returned = λ f r t. refl;
  catch_panic-panicked = λ f m t. refl;
  timeout-early = λ code limit t r h. ground arith;
  timeout-late = λ code limit t r h. ground arith;
  timeout-either = λ code limit t r. ground arith;
  trace-same = λ s. refl;
}

-- A URL is its scheme and what follows the colon; no password is ever read.
abbrev longer : ℕ → Result (Text × Text) Text → Result (Text × Text) Text
longer c (ok (scheme, s)) = ok (c ∷ scheme, s)
longer c (err m) = err m

abbrev pub split_colon : Text → Result (Text × Text) Text
split_colon [] = err (codes "relative URL without a base")
split_colon (c ∷ s) = let rest = split_colon s in if c == b':' then ok ([], s) else longer c rest

abbrev pub text_net : Net
text_net = record {
  SocketAddr = Text;
  Url = Text × Text;
  parse_socket_addr = λ raw. ok raw;
  parse_url = split_colon;
  scheme = λ u. u.0;
  password = λ u. none;
  set_password = λ p u. some u;
  to_string = λ u. u.0 ++ b':' ∷ u.1;
}

abbrev pub text_defaults : DefaultsParse text_net
text_defaults = record {
  default_addr = codes "0.0.0.0:3000";
  addr_parses = refl;
  default_url =
      (codes "https", codes "//mempool.space/api/v1/lightning/nodes/rankings/connectivity");
  url_parses = refl;
  url_http = refl;
}

-- A database server that refuses so many connections, and every URL that is empty.
abbrev pub open_after : Text → ℕ → Result Text SqlxError × ℕ
open_after [] w = (err (configuration (codes "empty URL")), w)
open_after (c ∷ url) zero = (ok (c ∷ url), zero)
open_after (c ∷ url) (suc w) = (err (io (codes "connection refused")), w)

abbrev pub slow_sqlx : Sqlx
slow_sqlx = record {
  World = ℕ;
  Pool = Text;
  open_pool = λ connections timeout url w. open_after url w;
  run_migrations = λ pool w. (err (inconsistent (codes "checksum mismatch")), w);
  close = λ pool w. w;
}
