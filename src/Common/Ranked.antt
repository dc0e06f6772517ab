-- ===== src/Common/Ranked.antt =====
-- A list that is sorted by rank is determined by its elements, where the ranks are distinct.
use mathlib.Core.Logic.Or
use mathlib.Core.List.{Mem, Perm, mem-cons, not-mem-nil, perm-cons}
use mathlib.Core.List.Perm
use mathlib.Core.Path.{ap₂}
use native.Mathlib.Bridge.{le_prop}
use bipa_coding_challenge.Common.{ℕ, ◌≤◌, ◌<◌, ◌≡◌, refl, sym, subst, List, [], ◌∷◌, All, arith}

module _ {ℓ κ} {A : Type ℓ} (P : A → Type κ) where
  pub All-mem : (a : A) (xs : List A) → IsProp (P a) → All P xs → Mem a xs → P a
  All-mem a [] p h m = absurd (not-mem-nil m)
  All-mem a (x ∷ xs) p (hx, h) m =
      Or.elim p (mem-cons.0 m) (λ e. subst P (sym e) hx) (All-mem a xs p h)

module _ {ℓ} {A : Type ℓ} (rank : A → ℕ) where
  abbrev pub IsSorted : List A → Type 0
  IsSorted [] = Unit
  IsSorted (x ∷ xs) = All (λ y. rank x ≤ rank y) xs × IsSorted xs

  abbrev pub IsIncreasing : List A → Type 0
  IsIncreasing [] = Unit
  IsIncreasing (x ∷ xs) = All (λ y. rank x < rank y) xs × IsIncreasing xs

  module _ (A-set : IsSet A) where
    heads_agree :
        (x y : A) (xs ys : List A)
        → Perm (x ∷ xs) (y ∷ ys)
        → IsSorted (x ∷ xs)
        → IsIncreasing (y ∷ ys)
        → x ≡ y
    heads_agree x y xs ys p (least, _) (below, _) =
        Or.elim (A-set x y) (mem-cons.0 ((Perm.mem_iff p).0 (mem-cons.1 (Or.inl refl)))) (λ e. e)
          λ later.
            Or.elim (A-set x y) (mem-cons.0 ((Perm.mem_iff p).1 (mem-cons.1 (Or.inl refl)))) sym
              λ among.
                let low : rank x ≤ rank y =
                  All-mem (λ z. rank x ≤ rank z) y xs le_prop least among in
                let high : rank y < rank x =
                  All-mem (λ z. rank y < rank z) x ys le_prop below later in
                absurd (omega arith)

    pub sorted_unique : (xs ys : List A) → Perm xs ys → IsSorted xs → IsIncreasing ys → xs ≡ ys
    sorted_unique [] ys p _ _ = sym (Perm.eq-nil (Perm.symm p))
    sorted_unique (x ∷ xs) [] p _ _ = Perm.eq-nil p
    sorted_unique (x ∷ xs) (y ∷ ys) p s i =
        let e = heads_agree x y xs ys p s i in
        let rest = (perm-cons x).0 (subst (λ z. Perm (x ∷ xs) (z ∷ ys)) (sym e) p) in
        ap₂ ◌∷◌ e (sorted_unique xs ys rest s.1 i.1)
