-- ===== src/Tests/Database.antt =====
-- A database in memory: a transaction works on a copy of the table, a listing sorts it by rank, and a
-- commit may lose its answer.
use mathlib.Core.List.{Perm}
use mathlib.Core.List.Perm
use bipa_coding_challenge.Common.{
  ℕ, ◌≤◌, ◌≡◌, refl, sym, ◌⊎◌, inl, inr, ◌≢◌, Bool, true, false, not, ◌&&◌, Bool-cases, List, [],
  ◌∷◌, ◌++◌, map, codes, text_eq, text_eq_iff, leb, if◌then◌else◌, All, Result, ok, err, arith,
}
use bipa_coding_challenge.Common.Int.{ℤ}
use bipa_coding_challenge.Common.Ranked.{IsSorted}
use bipa_coding_challenge.Storage.{SqlxError, pool_timed_out, other}
use bipa_coding_challenge.Storage.Postgres.{
  StoredRow, Columns, unnest, KeysDistinct, Postgres, PostgresLaws,
}

abbrev pub Row : Type 0
Row = StoredRow ℤ

-- PRIMARY KEY, as a test
abbrev key_free : Row → List Row → Bool
key_free r [] = true
key_free r (q ∷ rows) = not (text_eq r.row.public_key q.row.public_key) && key_free r rows

abbrev pub keys_distinct : List Row → Bool
keys_distinct [] = true
keys_distinct (r ∷ rows) = key_free r rows && keys_distinct rows

key_free-All :
    (r : Row) (rows : List Row)
    → key_free r rows ≡ true
    → All (λ q. r.row.public_key ≢ q.row.public_key) rows
key_free-All r [] h = tt
key_free-All r (q ∷ rows) h = (
  ground (arith, text_eq_iff r.row.public_key q.row.public_key),
  key_free-All r rows (ground arith),
)

keys_distinct-KeysDistinct : (rows : List Row) → keys_distinct rows ≡ true → KeysDistinct rows
keys_distinct-KeysDistinct [] h = tt
keys_distinct-KeysDistinct (r ∷ rows) h =
    (key_free-All r rows (ground arith), keys_distinct-KeysDistinct rows (ground arith))

abbrev place : Row → List Row → List Row
place r [] = r ∷ []
place r (q ∷ rows) = let rest = place r rows in if leb r.rank q.rank then r ∷ q ∷ rows else q ∷ rest

abbrev pub sort : List Row → List Row
sort [] = []
sort (r ∷ rows) = place r (sort rows)

place-Perm : (r : Row) (rows : List Row) → Perm (place r rows) (r ∷ rows)
place-Perm r [] = Perm.refl (r ∷ [])
place-Perm r (q ∷ rows) = elim (Bool-cases (leb r.rank q.rank)) [
  | inl h ↦ rw h (Perm.refl (r ∷ q ∷ rows))
  | inr h ↦ rw h (Perm.trans (Perm.cons q (place-Perm r rows)) (Perm.swap r q rows))
]

pub sort-Perm : (rows : List Row) → Perm (sort rows) rows
sort-Perm [] = Perm.refl []
sort-Perm (r ∷ rows) = Perm.trans (place-Perm r (sort rows)) (Perm.cons r (sort-Perm rows))

place-All :
    (low : ℕ) (r : Row) (rows : List Row)
    → low ≤ r.rank
    → All (λ q. low ≤ q.rank) rows
    → All (λ q. low ≤ q.rank) (place r rows)
place-All low r [] h _ = (h, tt)
place-All low r (q ∷ rows) h (hq, hs) = elim (Bool-cases (leb r.rank q.rank)) [
  | inl e ↦ rw e (h, (hq, hs))
  | inr e ↦ rw e (hq, place-All low r rows h hs)
]

All-le :
    (a b : ℕ) (rows : List Row) → a ≤ b → All (λ q. b ≤ q.rank) rows → All (λ q. a ≤ q.rank) rows
All-le a b [] h _ = tt
All-le a b (q ∷ rows) h (hq, hs) = (omega arith, All-le a b rows h hs)

place-IsSorted :
    (r : Row) (rows : List Row)
    → IsSorted (λ q. q.rank) rows
    → IsSorted (λ q. q.rank) (place r rows)
place-IsSorted r [] _ = (tt, tt)
place-IsSorted r (q ∷ rows) (least, s) = elim (Bool-cases (leb r.rank q.rank)) [
  | inl e ↦
      let le : r.rank ≤ q.rank = ground arith in
      rw e ((le, All-le r.rank q.rank rows le least), (least, s))
  | inr e ↦ rw e (place-All q.rank r rows (ground arith) least, place-IsSorted r rows s)
]

pub sort-IsSorted : (rows : List Row) → IsSorted (λ q. q.rank) (sort rows)
sort-IsSorted [] = tt
sort-IsSorted (r ∷ rows) = place-IsSorted r (sort rows) (sort-IsSorted rows)

-- The table, and whether the next commit loses its answer.
abbrev pub Db : Type 0
Db = List Row × Bool

abbrev insert : Columns ℤ → List Row → Db → Result (List Row) SqlxError × Db
insert c tx db =
    if keys_distinct (unnest c)
    then (ok (tx ++ unnest c), db)
    else (err (other (codes "duplicate key value")), db)

abbrev finish : List Row → Db → Result (Unit {0}) SqlxError × Db
finish tx (table, true) = (err pool_timed_out, (tx, true))
finish tx (table, false) = (ok tt, (tx, false))

abbrev pub memory : Postgres ℤ
memory = record {
  Db = Db;
  Tx = List Row;
  begin = λ db. (ok db.0, db);
  delete_nodes = λ tx db. (ok [], db);
  insert_nodes = insert;
  commit = finish;
  rollback = λ tx db. db;
  select_by_rank = λ db. (ok (map (λ r. r.row) (sort db.0)), db);
}

pub insert-rows : (c : Columns ℤ) (tx : List Row) (db : Db) → (insert c tx db).1.0 ≡ db.0
insert-rows c tx db = ground arith

pub insert-view :
    (c : Columns ℤ) (tx tx' : List Row) (db : Db)
    → (insert c tx db).0 ≡ ok tx'
    → Perm tx' (tx ++ unnest c) × KeysDistinct (unnest c)
insert-view c tx tx' db h = elim (Bool-cases (keys_distinct (unnest c))) [
  | inl e ↦
      let same : tx' ≡ tx ++ unnest c = sym (cc (rw e at h)) in
      (rw same (Perm.refl (tx ++ unnest c)), keys_distinct-KeysDistinct (unnest c) e)
  | inr e ↦ absurd (cc (rw e at h))
]

pub finish-rows : (tx : List Row) (db : Db) → (finish tx db).0 ≡ ok tt → Perm (finish tx db).1.0 tx
finish-rows tx (table, true) h = absurd (cc)
finish-rows tx (table, false) h = Perm.refl tx

pub finish-failed :
    (tx : List Row) (db : Db) (e : SqlxError)
    → (finish tx db).0 ≡ err e
    → Perm (finish tx db).1.0 db.0 ⊎ Perm (finish tx db).1.0 tx
finish-failed tx (table, true) e h = inr (Perm.refl tx)
finish-failed tx (table, false) e h = absurd (cc)

abbrev pub memory_laws : PostgresLaws memory
memory_laws = record {
  rows = λ db. db.0;
  view = λ tx. tx;
  rows-begin = λ db. refl;
  rows-delete = λ tx db. refl;
  view-delete = λ tx tx' db h. sym (cc);
  rows-insert = insert-rows;
  view-insert = insert-view;
  rows-commit = finish-rows;
  rows-commit_failed = finish-failed;
  rows-rollback = λ tx db. refl;
  rows-select = λ db. refl;
  ordered = λ db found h. (sort db.0, sort-Perm db.0, sort-IsSorted db.0, sym (cc));
}
