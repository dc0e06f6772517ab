-- ===== src/Http/Response.antt =====
-- src/http/response.rs and src/http/error.rs: the public shape of a node, and error responses.
use bipa_coding_challenge.Common.{ℕ, ◌≡◌, refl, Text, List, codes, some, ok}
use bipa_coding_challenge.Common.Int.{ℤ}
use bipa_coding_challenge.Domain.{Node}
use bipa_coding_challenge.Domain.Format.{format_btc}
use bipa_coding_challenge.Domain.Format.RoundTrip.{read_btc, read_btc-format_btc}
use bipa_coding_challenge.Domain.Time.{
  Chrono, ChronoLaws, InRfc3339Years, timestamp_from_unix, format_timestamp, parse-format_timestamp,
}
use bipa_coding_challenge.Storage.{StorageError}

pub record NodeResponse : Type 0 where
  pub public_key : Text
  pub alias : Text
  pub capacity : Text
  pub first_seen : Text

pub record ErrorBody : Type 0 where
  pub error : Text

-- The values that are serialised as JSON; an empty body is not JSON.
pub data Body : Type 0 where
  node_list : List NodeResponse → Body
  health_ok : Body
  error_body : ErrorBody → Body
  no_body : Body

pub record HttpResponse : Type 0 where
  pub status : ℕ
  pub body : Body

pub data ApiError : Type 0 where
  storage : StorageError → ApiError

abbrev pub internal_error : Text
internal_error = codes "internal server error"

abbrev pub internal_error_response : HttpResponse
internal_error_response = record {
  status = 500;
  body = error_body (record { error = internal_error });
}

-- `impl IntoResponse for ApiError`: the response, and the error that is logged.
unfoldable pub into_response : ApiError → HttpResponse × ApiError
into_response e = (internal_error_response, e)

module _ (c : Chrono) where
  -- `impl From<&Node> for NodeResponse`
  unfoldable pub from_node : Node c.Instant → NodeResponse
  from_node node = record {
    public_key = node.public_key;
    alias = node.alias;
    capacity = format_btc node.capacity_sats;
    first_seen = format_timestamp c node.first_seen;
  }

  module _ (laws : ChronoLaws c) where
    -- Nothing of a node is lost in its public form: the key and the alias are there unchanged, the
    -- capacity reads back as the same satoshis, and a time in the years 0 to 9999 as the same instant.
    pub from_node-lossless :
        (node : Node c.Instant) (seen : ℤ)
        → InRfc3339Years seen
        → timestamp_from_unix c seen ≡ ok node.first_seen
        → ((from_node node).public_key ≡ node.public_key)
          × ((from_node node).alias ≡ node.alias)
          × (read_btc (from_node node).capacity ≡ some node.capacity_sats)
          × (laws.parse_from_rfc3339 (from_node node).first_seen ≡ some node.first_seen)
    unfolding from_node
    from_node-lossless node seen years h = (
      refl,
      refl,
      read_btc-format_btc node.capacity_sats,
      (parse-format_timestamp c laws seen node.first_seen years h).0,
    )
