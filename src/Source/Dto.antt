-- ===== src/Source/Dto.antt =====
-- src/source/dto.rs: the wire record, its validation into a node, and the loop over the records.
-- serde_json is a parameter: `SerdeJson` has what the source calls.
pub mod Validation
pub mod Records
use bipa_coding_challenge.Common.{
  ℕ, suc, ◌≡◌, true, Text, List, [], ◌∷◌, is_empty, if◌then◌else◌, Result, ok, err, ◌>>=◌, map_err,
  ok_or,
}
use bipa_coding_challenge.Common.Int.{ℤ, is_i64, u64_from_i64}
use bipa_coding_challenge.Domain.{Node}
use bipa_coding_challenge.Domain.Time.{Chrono, timestamp_from_unix}

pub record MempoolNodeDto : Type 0 where
  pub public_key : Text
  pub alias : Text
  pub capacity : ℤ  -- i64
  pub first_seen : ℤ  -- i64

pub data ValidationError : Type 0 where
  empty_public_key : ValidationError
  negative_capacity : ℤ → ValidationError
  invalid_first_seen : ℤ → ValidationError

-- `from_value` stands for `serde_json::from_value::<MempoolNodeDto>`, which serde derives from the
-- struct; `from_slice` for `serde_json::from_slice::<Vec<Value>>`.
pub record SerdeJson : Type 1 where
  pub Value : Type 0
  pub from_value : Value → Result MempoolNodeDto Text
  pub from_slice : List ℕ → Result (List Value) Text

-- A decoded field of type `i64` holds an `i64`.
pub record SerdeJsonLaws (s : SerdeJson) : Type 0 where
  pub capacity_i64 :
      (v : s.Value) (dto : MempoolNodeDto) → s.from_value v ≡ ok dto → is_i64 dto.capacity ≡ true

-- What `parse_records` logs at `warn`, with the record's index.
pub data Warning : Type 0 where
  malformed : ℕ → Text → Warning
  invalid : ℕ → Text → ValidationError → Warning

module _ (c : Chrono) where
  -- `impl TryFrom<MempoolNodeDto> for Node`
  unfoldable pub try_from : MempoolNodeDto → Result (Node c.Instant) ValidationError
  unfolding timestamp_from_unix
  try_from dto = if is_empty dto.public_key then err empty_public_key else do
    capacity_sats ← ok_or (negative_capacity dto.capacity) (u64_from_i64 dto.capacity)
    first_seen ←
        map_err (λ _. invalid_first_seen dto.first_seen) (timestamp_from_unix c dto.first_seen)
    ok (record {
      public_key = dto.public_key;
      alias = dto.alias;
      capacity_sats = capacity_sats;
      first_seen = first_seen;
    })

  module _ (s : SerdeJson) where
    -- One round of the closure: a node to keep, or the warning with which the record is skipped.
    unfoldable pub parse_record : ℕ → s.Value → Result (Node c.Instant) Warning
    parse_record index v = do
      dto ← map_err (malformed index) (s.from_value v)
      map_err (invalid index dto.public_key) (try_from dto)

    abbrev pub sort_out :
        Result (Node c.Instant) Warning
        → List (Node c.Instant) × List Warning
        → List (Node c.Instant) × List Warning
    sort_out (ok n) (ns, ws) = (n ∷ ns, ws)
    sort_out (err w) (ns, ws) = (ns, w ∷ ws)

    pub parse_from : ℕ → List s.Value → List (Node c.Instant) × List Warning
    parse_from index [] = ([], [])
    parse_from index (v ∷ vs) = sort_out (parse_record index v) (parse_from (suc index) vs)

    unfoldable pub parse_records : List s.Value → List (Node c.Instant) × List Warning
    unfolding parse_from
    parse_records records = parse_from 0 records
