-- ===== src/Storage/Postgres/Encode.antt =====
-- The loop that turns nodes into the five arrays of the INSERT: what the arrays hold, and when it
-- stops with an error.
use bipa_coding_challenge.Common.{
  ℕ, suc, ◌^◌, ◌≤◌, ◌<◌, ◌≡◌, refl, sym, ap, ◌∙◌, ◌⊎◌, inl, inr, List, [], ◌∷◌, ◌++◌, append_assoc,
  append-nil, map, All, codes, ok, err, arith,
}
use mathlib.Core.List.{map-append}
use native.Mathlib.Decide.{dec_lt}
use bipa_coding_challenge.Common.Int.{pos}
use bipa_coding_challenge.Common.Ranked.{IsIncreasing}
use bipa_coding_challenge.Std.Decimal.{decimal}
use bipa_coding_challenge.Domain.{Node}
use bipa_coding_challenge.Storage.{StorageError, out_of_range}
use bipa_coding_challenge.Storage.Postgres.{
  StoredRow, Columns, capacity_to_db, rank_to_db, push_all, collect_from, collect_columns, unnest,
}

capacity_to_db-fits : (n : ℕ) → n < 2 ^ 63 → capacity_to_db n ≡ ok (pos n)
unfolding capacity_to_db
capacity_to_db-fits n h = ground arith

capacity_to_db-unfit :
    (n : ℕ) → 2 ^ 63 ≤ n → capacity_to_db n ≡ err (out_of_range (codes "capacity_sats") (decimal n))
unfolding capacity_to_db
capacity_to_db-unfit n h = ground arith

rank_to_db-fits : (n : ℕ) → n < 2 ^ 31 → rank_to_db n ≡ ok n
unfolding rank_to_db
rank_to_db-fits n h = ground arith

rank_to_db-unfit :
    (n : ℕ) → 2 ^ 31 ≤ n → rank_to_db n ≡ err (out_of_range (codes "rank") (decimal n))
unfolding rank_to_db
rank_to_db-unfit n h = ground arith

module _ {Instant : Type 0} where
  -- The row that stands for a node at a place of the ranking.
  abbrev pub row_of : ℕ → Node Instant → StoredRow Instant
  row_of index node = record {
    row = record {
      public_key = node.public_key;
      alias = node.alias;
      capacity_sats = pos node.capacity_sats;
      first_seen = node.first_seen;
    };
    rank = index;
  }

  abbrev pub rows_from : ℕ → List (Node Instant) → List (StoredRow Instant)
  rows_from index [] = []
  rows_from index (node ∷ nodes) = row_of index node ∷ rows_from (suc index) nodes

  -- The arrays of a list of rows.
  abbrev pub columns_of : List (StoredRow Instant) → Columns Instant
  columns_of rows = record {
    public_keys = map (λ r. r.row.public_key) rows;
    aliases = map (λ r. r.row.alias) rows;
    capacities = map (λ r. r.row.capacity_sats) rows;
    first_seens = map (λ r. r.row.first_seen) rows;
    ranks = map (λ r. r.rank) rows;
  }

  pub unnest-columns_of : (rows : List (StoredRow Instant)) → unnest (columns_of rows) ≡ rows
  unfolding unnest
  unnest-columns_of [] = refl
  unnest-columns_of (r ∷ rows) = ap (λ rest. r ∷ rest) (unnest-columns_of rows)

  columns_of-concat :
      (rows : List (StoredRow Instant)) (index : ℕ) (node : Node Instant)
      → columns_of (rows ++ row_of index node ∷ [])
        ≡ push_all (columns_of rows) node (pos node.capacity_sats) index
  columns_of-concat rows index node = simp map-append

  -- A node fits its place: BIGINT holds its capacity and INTEGER its rank.
  abbrev pub Fits : ℕ → Node Instant → Type 0
  Fits index node = (node.capacity_sats < 2 ^ 63) × (index < 2 ^ 31)

  abbrev pub AllFit : ℕ → List (Node Instant) → Type 0
  AllFit index [] = Unit
  AllFit index (node ∷ nodes) = Fits index node × AllFit (suc index) nodes

  collect_from-ok :
      (index : ℕ) (nodes : List (Node Instant)) (before : List (StoredRow Instant))
      → AllFit index nodes
      → collect_from index nodes (columns_of before)
        ≡ ok (columns_of (before ++ rows_from index nodes))
  unfolding collect_from
  collect_from-ok index [] before _ = rw (append-nil before)
  collect_from-ok index (node ∷ nodes) before ((c, i), fit) =
      rw (capacity_to_db-fits node.capacity_sats c, rank_to_db-fits index i)
        (ap (collect_from (suc index) nodes) (sym (columns_of-concat before index node))
          ∙ collect_from-ok (suc index) nodes (before ++ row_of index node ∷ []) fit
          ∙ ap (λ rows. ok (columns_of rows))
              (append_assoc before (row_of index node ∷ []) (rows_from (suc index) nodes)))

  pub collect_columns-columns_of :
      (nodes : List (Node Instant))
      → AllFit 0 nodes
      → collect_columns nodes ≡ ok (columns_of (rows_from 0 nodes))
  unfolding collect_columns
  collect_columns-columns_of nodes fit = collect_from-ok 0 nodes [] fit

  -- Where every capacity fits BIGINT and every place INTEGER, the five arrays are filled, and unnesting
  -- them gives one row for each node, in order, with the node's place as its rank.
  pub collect_columns-ok :
      (nodes : List (Node Instant))
      → AllFit 0 nodes
      → (columns : Columns Instant) × (collect_columns nodes ≡ ok columns)
        × (unnest columns ≡ rows_from 0 nodes)
  collect_columns-ok nodes fit =
      (columns_of (rows_from 0 nodes), collect_columns-columns_of nodes fit, unnest-columns_of _)

  -- The first node that does not fit its place, and the error that names the field and the value.
  abbrev pub Unfit : ℕ → List (Node Instant) → StorageError → Type 0
  Unfit index [] e = ⊥
  Unfit index (node ∷ nodes) e =
      ((2 ^ 63 ≤ node.capacity_sats)
        × (e ≡ out_of_range (codes "capacity_sats") (decimal node.capacity_sats)))
      ⊎ ((node.capacity_sats < 2 ^ 63)
          × (2 ^ 31 ≤ index)
          × (e ≡ out_of_range (codes "rank") (decimal index)))
      ⊎ ((node.capacity_sats < 2 ^ 63) × (index < 2 ^ 31) × Unfit (suc index) nodes e)

  collect_from-Unfit :
      (index : ℕ) (nodes : List (Node Instant)) (columns : Columns Instant) (e : StorageError)
      → Unfit index nodes e
      → collect_from index nodes columns ≡ err e
  unfolding collect_from
  collect_from-Unfit index [] columns e u = absurd u
  collect_from-Unfit index (node ∷ nodes) columns e (inl (c, same)) =
      rw (capacity_to_db-unfit node.capacity_sats c) (ap err (sym same))
  collect_from-Unfit index (node ∷ nodes) columns e (inr (inl (c, i, same))) =
      rw (capacity_to_db-fits node.capacity_sats c, rank_to_db-unfit index i) (ap err (sym same))
  collect_from-Unfit index (node ∷ nodes) columns e (inr (inr (c, i, unfit))) =
      rw (capacity_to_db-fits node.capacity_sats c, rank_to_db-fits index i)
        (collect_from-Unfit (suc index) nodes _ e unfit)

  pub collect_columns-Unfit :
      (nodes : List (Node Instant)) (e : StorageError)
      → Unfit 0 nodes e
      → collect_columns nodes ≡ err e
  unfolding collect_columns
  collect_columns-Unfit nodes e u = collect_from-Unfit 0 nodes _ e u

  -- Every node fits its place, or there is a first one that does not.
  pub fit_cases :
      (index : ℕ) (nodes : List (Node Instant))
      → AllFit index nodes ⊎ ((e : StorageError) × Unfit index nodes e)
  fit_cases index [] = inl tt
  fit_cases index (node ∷ nodes) = elim (dec_lt node.capacity_sats (2 ^ 63)) [
    | no c ↦ inr (_, inl (omega arith, refl))
    | yes c ↦ elim (dec_lt index (2 ^ 31)) [
      | no i ↦ inr (_, inr (inl (c, omega arith, refl)))
      | yes i ↦ elim (fit_cases (suc index) nodes) [
        | inl fit ↦ inl ((c, i), fit)
        | inr (e, unfit) ↦ inr (e, inr (inr (c, i, unfit)))
      ]
    ]
  ]

  rows_from-le :
      (index low : ℕ) (nodes : List (Node Instant))
      → low < index
      → All (λ r. low < r.rank) (rows_from index nodes)
  rows_from-le index low [] h = tt
  rows_from-le index low (node ∷ nodes) h = (h, rows_from-le (suc index) low nodes (omega arith))

  -- The ranks of a ranking are distinct and grow.
  pub rows_from-IsIncreasing :
      (index : ℕ) (nodes : List (Node Instant)) → IsIncreasing (λ r. r.rank) (rows_from index nodes)
  rows_from-IsIncreasing index [] = tt
  rows_from-IsIncreasing index (node ∷ nodes) =
      (rows_from-le (suc index) index nodes (omega arith), rows_from-IsIncreasing (suc index) nodes)
