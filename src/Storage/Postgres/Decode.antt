-- ===== src/Storage/Postgres/Decode.antt =====
-- Rows read back: the conversions of a capacity undo each other, and the rows of a ranking give its
-- nodes.
use bipa_coding_challenge.Common.{ℕ, suc, ◌^◌, ◌<◌, ◌≡◌, refl, List, [], ◌∷◌, map, ok, arith}
use bipa_coding_challenge.Common.Int.{ℤ}
use bipa_coding_challenge.Domain.{Node}
use bipa_coding_challenge.Storage.Postgres.{
  capacity_to_db, capacity_from_db, try_from, collect_nodes,
}
use bipa_coding_challenge.Storage.Postgres.Encode.{row_of, rows_from}

-- A capacity in satoshis is converted for the database exactly when it fits a signed 64-bit integer,
-- and then the value read back is the same capacity.
pub capacity_from_db-to_db :
    (sats : ℕ) (stored : ℤ)
    → capacity_to_db sats ≡ ok stored
    → (sats < 2 ^ 63) × (capacity_from_db stored ≡ ok sats)
unfolding capacity_to_db capacity_from_db
capacity_from_db-to_db sats stored h = ground arith

module _ {Instant : Type 0} where
  try_from-row_of : (index : ℕ) (node : Node Instant) → try_from (row_of index node).row ≡ ok node
  unfolding try_from
  try_from-row_of index node = refl

  pub collect_nodes-rows_from :
      (index : ℕ) (nodes : List (Node Instant))
      → collect_nodes (map (λ r. r.row) (rows_from index nodes)) ≡ ok nodes
  unfolding collect_nodes
  collect_nodes-rows_from index [] = refl
  collect_nodes-rows_from index (node ∷ nodes) =
      rw (try_from-row_of index node, collect_nodes-rows_from (suc index) nodes)
