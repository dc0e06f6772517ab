-- ===== src/Source/Dto/Validation.antt =====
-- Which wire records become nodes, and with which error the others are refused.
use bipa_coding_challenge.Common.{◌≡◌, ◌≢◌, ◌↔◌, [], ok, err, none, some, arith}
use bipa_coding_challenge.Common.Int.{ℤ, pos, negsuc}
use bipa_coding_challenge.Domain.{Node}
use bipa_coding_challenge.Domain.Time.{Chrono}
use bipa_coding_challenge.Source.Dto.{
  MempoolNodeDto, ValidationError, empty_public_key, negative_capacity, invalid_first_seen,
  try_from,
}

abbrev pub IsNegative : ℤ → Type 0
IsNegative (pos n) = ⊥
IsNegative (negsuc n) = Unit

module _ (c : Chrono) where
  -- The node that a valid wire record stands for.
  pub record IsNodeOf (dto : MempoolNodeDto) (n : Node c.Instant) : Type 0 where
    pub has_key : dto.public_key ≢ []
    pub same_key : n.public_key ≡ dto.public_key
    pub same_alias : n.alias ≡ dto.alias
    pub same_capacity : dto.capacity ≡ pos n.capacity_sats
    pub same_instant : c.from_timestamp dto.first_seen 0 ≡ some n.first_seen

  -- A wire record is converted into a node exactly when its key is not empty, its capacity is not
  -- negative and its time is an instant of chrono; the node has the key, alias, capacity and instant.
  pub try_from-ok_iff :
      (dto : MempoolNodeDto) (n : Node c.Instant) → (try_from c dto ≡ ok n) ↔ IsNodeOf dto n
  unfolding try_from
  try_from-ok_iff dto n = (λ h. ground arith, λ h. ground arith)

  -- The first check that fails, in the order key, capacity, time, with the value that it refuses.
  abbrev pub Refuses : MempoolNodeDto → ValidationError → Type 0
  Refuses dto empty_public_key = dto.public_key ≡ []
  Refuses dto (negative_capacity k) =
      (dto.public_key ≢ []) × (dto.capacity ≡ k) × IsNegative dto.capacity
  Refuses dto (invalid_first_seen s) =
      (dto.public_key ≢ [])
      × (¬ IsNegative dto.capacity)
      × (dto.first_seen ≡ s)
      × (c.from_timestamp dto.first_seen 0 ≡ none)

  -- A wire record is refused with an error exactly when that error's check is the first to fail, in
  -- the order key, capacity, time; the error carries the refused capacity or time.
  pub try_from-err_iff :
      (dto : MempoolNodeDto) (e : ValidationError) → (try_from c dto ≡ err e) ↔ Refuses dto e
  unfolding try_from
  try_from-err_iff dto empty_public_key = (λ h. ground arith, λ h. ground arith)
  try_from-err_iff dto (negative_capacity k) = (λ h. ground arith, λ h. ground arith)
  try_from-err_iff dto (invalid_first_seen k) = (λ h. ground arith, λ h. ground arith)
