-- ===== src/Source/Dto/Records.antt =====
-- The loop over the records of a response: which nodes it keeps and what it logs.
use bipa_coding_challenge.Common.{
  ℕ, suc, ◌+◌, ◌^◌, ◌<◌, ◌≡◌, refl, ◌≢◌, Option, none, some, List, [], ◌∷◌, ◌++◌, append_assoc,
  Result, ok, err, Result-cases, inl, inr, length, length-concat, get_elem?, get_elem?-append,
  filter_map, filter_map-append, All, arith,
}
use bipa_coding_challenge.Domain.{Node}
use bipa_coding_challenge.Domain.Time.{Chrono}
use bipa_coding_challenge.Source.Dto.{
  SerdeJson, SerdeJsonLaws, Warning, malformed, invalid, try_from, parse_record, parse_from,
  parse_records,
}

abbrev pub index_of : Warning → ℕ
index_of (malformed i _) = i
index_of (invalid i _ _) = i

abbrev pub ok? {ℓ κ} : {A : Type ℓ} {E : Type κ} → Result A E → Option A
ok? (ok a) = some a
ok? (err e) = none

module _ (c : Chrono) (s : SerdeJson) where
  -- The node that a record is worth, wherever it stands.
  unfoldable pub accepted : s.Value → Option (Node c.Instant)
  accepted v = elim (s.from_value v) [ ok dto ↦ ok? (try_from c dto) | err e ↦ none ]

  ok?-parse_record : (i : ℕ) (v : s.Value) → ok? (parse_record c s i v) ≡ accepted v
  unfolding parse_record accepted
  ok?-parse_record i v = ground arith

  parse_from-nodes : (i : ℕ) (vs : List s.Value) → (parse_from c s i vs).0 ≡ filter_map accepted vs
  unfolding parse_from
  parse_from-nodes i [] = refl
  parse_from-nodes i (v ∷ vs) = ground (arith, ok?-parse_record i v, parse_from-nodes (suc i) vs)

  -- The nodes are those of the acceptable records, in the order of the response: each record is
  -- judged by itself, whatever stands around it.
  pub parse_records-nodes : (vs : List s.Value) → (parse_records c s vs).0 ≡ filter_map accepted vs
  unfolding parse_records
  parse_records-nodes vs = parse_from-nodes 0 vs

  -- A record that is malformed or invalid changes nothing of what becomes of the other records.
  pub parse_records-skip :
      (xs : List s.Value) (v : s.Value) (ys : List s.Value)
      → accepted v ≡ none
      → (parse_records c s (xs ++ v ∷ ys)).0 ≡ (parse_records c s (xs ++ ys)).0
  parse_records-skip xs v ys h = rw (
    parse_records-nodes (xs ++ v ∷ ys),
    parse_records-nodes (xs ++ ys),
    filter_map-append accepted xs (v ∷ ys),
    filter_map-append accepted xs ys,
    h,
  )

  parse_from-length :
      (i : ℕ) (vs : List s.Value)
      → length (parse_from c s i vs).0 + length (parse_from c s i vs).1 ≡ length vs
  unfolding parse_from
  parse_from-length i [] = omega arith
  parse_from-length i (v ∷ vs) = ground (arith, parse_from-length (suc i) vs)

  -- A warning blames a record: the one at its index, which gave that very warning.
  abbrev pub Blames : List s.Value → Warning → Type 0
  Blames vs w =
      (v : s.Value) × (get_elem? vs (index_of w) ≡ some v)
      × (parse_record c s (index_of w) v ≡ err w)

  index_of-parse_record :
      (i : ℕ) (v : s.Value) (w : Warning) → parse_record c s i v ≡ err w → index_of w ≡ i
  unfolding parse_record
  index_of-parse_record i v w h = ground arith

  parse_from-Blames :
      (before vs : List s.Value) → All (Blames (before ++ vs)) (parse_from c s (length before) vs).1
  unfolding parse_from
  parse_from-Blames before [] = tt
  parse_from-Blames before (v ∷ vs) =
      let rest : All (Blames (before ++ v ∷ vs)) (parse_from c s (suc (length before)) vs).1 =
        rw (append_assoc before (v ∷ []) vs, length-concat before v) at
          (parse_from-Blames (before ++ v ∷ []) vs) in
      elim (Result-cases (parse_record c s (length before) v)) [
        | inl (n, e) ↦ rw e rest
        | inr (w, e) ↦
            let at_index = index_of-parse_record (length before) v w e in
            rw e ((v, rw at_index (get_elem?-append before v vs), rw at_index e), rest)
      ]

  pub parse_records-warnings :
      (vs : List s.Value)
      → (length (parse_records c s vs).0 + length (parse_records c s vs).1 ≡ length vs)
        × All (Blames vs) (parse_records c s vs).1
  unfolding parse_records
  parse_records-warnings vs = (parse_from-length 0 vs, parse_from-Blames [] vs)

  -- What storage asks of a node that comes from the source.
  abbrev pub IsStorable : Node c.Instant → Type 0
  IsStorable n = (n.public_key ≢ []) × (n.capacity_sats < 2 ^ 63)

  module _ (laws : SerdeJsonLaws s) where
    parse_record-IsStorable :
        (i : ℕ) (v : s.Value) (n : Node c.Instant) → parse_record c s i v ≡ ok n → IsStorable n
    unfolding parse_record try_from
    parse_record-IsStorable i v n h = elim (Result-cases (s.from_value v)) [
      | inl (dto, e) ↦ ground (arith, laws.capacity_i64 v dto e)
      | inr (m, e) ↦ ground arith
    ]

    parse_from-IsStorable : (i : ℕ) (vs : List s.Value) → All IsStorable (parse_from c s i vs).0
    unfolding parse_from
    parse_from-IsStorable i [] = tt
    parse_from-IsStorable i (v ∷ vs) = elim (Result-cases (parse_record c s i v)) [
      | inl (n, e) ↦ rw e (parse_record-IsStorable i v n e, parse_from-IsStorable (suc i) vs)
      | inr (w, e) ↦ rw e (parse_from-IsStorable (suc i) vs)
    ]

    -- Every node of a response has a key, and its capacity fits the signed 64-bit column.
    pub parse_records-IsStorable : (vs : List s.Value) → All IsStorable (parse_records c s vs).0
    unfolding parse_records
    parse_records-IsStorable vs = parse_from-IsStorable 0 vs
