-- ===== src/Source/Mempool.antt =====
-- src/source/mempool.rs: the client of the mempool.space ranking. reqwest is a parameter; what the
-- network does with a request is decided by the state of the network.
pub mod Fetch
use bipa_coding_challenge.Common.{
  ℕ, ◌-◌, ◌<◌, ◌≤◌, ◌≡◌, ◌↔◌, Bool, true, Text, List, codes, length, if◌then◌else◌, Result, ok, err,
  ◌>>=◌, map_err, returned,
}
use bipa_coding_challenge.Domain.{Node}
use bipa_coding_challenge.Domain.Time.{Chrono}
use bipa_coding_challenge.Source.{SourceError, request, status, decode, NodeSource}
use bipa_coding_challenge.Source.Dto.{SerdeJson, Warning, parse_records}

-- A response whose head has arrived; `bytes` is what `bytes().await` gives.
pub record Response : Type 0 where
  pub code : ℕ  -- u16
  pub bytes : Result (List ℕ) Text

pub record Reqwest : Type 1 where
  pub Url : Type 0
  pub HttpClient : Type 0
  pub Network : Type 0
  -- `Client::builder().user_agent(a).timeout(t).build()`, the time in seconds
  pub build : Text → ℕ → Result HttpClient Text
  -- `http.get(url).send().await`
  pub send : HttpClient → Url → Network → Result Response Text × Network
  -- `StatusCode::is_success`
  pub is_success : ℕ → Bool
  pub is_success_iff : (n : ℕ) → (is_success n ≡ true) ↔ ((200 ≤ n) × (n < 300))

-- concat!(env!("CARGO_PKG_NAME"), "/", env!("CARGO_PKG_VERSION"))
abbrev pub user_agent : Text
user_agent = codes "bipa-nodes/0.1.0"

-- A decoded response: the nodes, and what is logged, the warnings of the skipped records and then
-- the counts.
pub record Fetched (Instant : Type 0) : Type 0 where
  pub nodes : List (Node Instant)
  pub warnings : List Warning
  pub received : ℕ
  pub valid : ℕ
  pub skipped : ℕ

module _ (r : Reqwest) where
  pub record MempoolClient : Type 0 where
    pub http : r.HttpClient
    pub url : r.Url

  unfoldable pub new : r.Url → ℕ → Result MempoolClient SourceError
  new url timeout = do
    http ← map_err request (r.build user_agent timeout)
    ok (record { http = http; url = url })

  module _ (c : Chrono) (s : SerdeJson) where
    -- The parsed records, counted; `received - nodes.len()` is a `usize` subtraction.
    unfoldable pub tally : List s.Value → Fetched c.Instant
    tally records =
        let parsed = parse_records c s records in
        record {
          nodes = parsed.0;
          warnings = parsed.1;
          received = length records;
          valid = length parsed.0;
          skipped = length records - length parsed.0;
        }

    -- Only the array is decoded here; the records are validated one by one.
    unfoldable pub read_body : List ℕ → Result (Fetched c.Instant) SourceError
    unfolding tally
    read_body body = do records ← map_err decode (s.from_slice body); ok (tally records)

    -- The status is looked at before the body.
    unfoldable pub read_response : Response → Result (Fetched c.Instant) SourceError
    unfolding read_body
    read_response response =
        if r.is_success response.code
        then (do body ← map_err request response.bytes; read_body body)
        else (err (status response.code))

    unfoldable pub fetch_nodes :
        MempoolClient → r.Network → Result (Fetched c.Instant) SourceError × r.Network
    unfolding read_response
    fetch_nodes client network =
        let sent = r.send client.http client.url network in
        (map_err request sent.0 >>= read_response, sent.1)

    abbrev pub nodes_of :
        Result (Fetched c.Instant) SourceError → Result (List (Node c.Instant)) SourceError
    nodes_of (ok f) = ok f.nodes
    nodes_of (err e) = err e

    -- `impl NodeSource for MempoolClient`: no code of the client panics.
    abbrev pub mempool_source : MempoolClient → NodeSource c.Instant
    mempool_source client = record {
      State = r.Network;
      fetch_nodes = λ network.
          let fetch = fetch_nodes client network in (returned (nodes_of fetch.0), fetch.1);
    }
