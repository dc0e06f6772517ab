-- ===== src/EndToEnd/Import.antt =====
-- An import from the network to the table.
use bipa_coding_challenge.Common.{
  ◌^◌, ◌≤◌, ◌<◌, ◌≡◌, ◌≢◌, sym, ap, ◌∙◌, subst, inl, inr, List, [], ◌∷◌, length, filter_map, All,
  ok, err, Result-cases, returned, arith,
}
use bipa_coding_challenge.Domain.{Node}
use bipa_coding_challenge.Domain.Time.{Chrono}
use bipa_coding_challenge.Source.Dto.{SerdeJson, SerdeJsonLaws}
use bipa_coding_challenge.Source.Dto.Records.{
  accepted, IsStorable, parse_records-nodes, parse_records-IsStorable,
}
use bipa_coding_challenge.Source.Mempool.{Reqwest, MempoolClient, fetch_nodes}
use bipa_coding_challenge.Source.Mempool.Fetch.{Delivers, fetch_nodes-ok, fetch_nodes-total}
use bipa_coding_challenge.Storage.{StorageError}
use bipa_coding_challenge.Storage.Postgres.{KeysDistinct, Postgres, PostgresLaws}
use bipa_coding_challenge.Storage.Postgres.Encode.{rows_from, columns_of}
use bipa_coding_challenge.Storage.Postgres.Snapshot.{replace_all-duplicate}
use bipa_coding_challenge.Storage.Postgres.Progress.{Runs, replace_all-Runs, AllFit-All}
use bipa_coding_challenge.Importer.{storage}
use bipa_coding_challenge.Importer.RunOnce.{run_once-stored, run_once-storage_err}
use bipa_coding_challenge.EndToEnd.{node_source, node_repository, Outside, import_once}

module _ (c : Chrono) (s : SerdeJson) (r : Reqwest) (p : Postgres c.Instant)
    (client : MempoolClient r) where
  -- What the importer gets of a fetch is its nodes.
  pub fetched_records :
      (network : r.Network) (nodes : List (Node c.Instant))
      → ((node_source c s r p client).fetch_nodes network).0 ≡ returned (ok nodes)
      → (records : List s.Value) × Delivers r c s client network records
        × (nodes ≡ filter_map (accepted c s) records)
  fetched_records network nodes h = elim (Result-cases (fetch_nodes r c s client network).0) [
    | inl (f, e) ↦
        let (records, delivers, same, _, _, _) = fetch_nodes-ok r c s client network f e in
        (records, delivers, sym (cc (rw e at h)) ∙ same)
    | inr (x, e) ↦ absurd (cc (rw e at h))
  ]

  pub fetched_of :
      (network : r.Network) (records : List s.Value)
      → Delivers r c s client network records
      → ((node_source c s r p client).fetch_nodes network).0
        ≡ returned (ok (filter_map (accepted c s) records))
  fetched_of network records d =
      let (fetched, same) = fetch_nodes-total r c s client network records d in
      rw fetched (ap (λ ns. returned (ok ns)) same)

  pub accepted-IsStorable :
      (laws : SerdeJsonLaws s) (records : List s.Value)
      → All (IsStorable c s) (filter_map (accepted c s) records)
  accepted-IsStorable laws records =
      subst (All (IsStorable c s)) (parse_records-nodes c s records)
        (parse_records-IsStorable c s laws records)

  storable-All :
      (nodes : List (Node c.Instant))
      → All (IsStorable c s) nodes
      → All (λ n. n.capacity_sats < 2 ^ 63) nodes
  storable-All [] h = tt
  storable-All (node ∷ nodes) (h, hs) = (h.1, storable-All nodes hs)

  -- An import whose network delivers records among which at least one is acceptable, and no more of
  -- them than INTEGER has places, succeeds where the database runs the four statements with the rows of
  -- the acceptable records; it returns their number.
  pub import_once-total :
      (laws : SerdeJsonLaws s) (w : Outside c s r p client) (records : List s.Value)
      → Delivers r c s client w.upstream records
      → filter_map (accepted c s) records ≢ []
      → length (filter_map (accepted c s) records) ≤ 2 ^ 31
      → Runs p (columns_of (rows_from 0 (filter_map (accepted c s) records))) w.store
      → (import_once c s r p client w).0
        ≡ returned (ok (record { imported = length (filter_map (accepted c s) records) }))
  import_once-total laws w records d some_node few runs =
      let good = filter_map (accepted c s) records in
      let fit =
        AllFit-All 0 good (omega (arith, few))
          (storable-All good (accepted-IsStorable laws records)) in
      run_once-stored (node_source c s r p client) (node_repository c s r p client) w good
        (length good) (fetched_of w.upstream records d) some_node
        (ap returned (replace_all-Runs p good w.store fit runs))

  -- If two of the acceptable records of a delivered array have the same key, then the import fails as
  -- a whole with a storage error, and the table keeps its rows.
  pub import_once-duplicate :
      (laws : PostgresLaws p) (w : Outside c s r p client) (records : List s.Value)
      → Delivers r c s client w.upstream records
      → ¬ KeysDistinct (rows_from 0 (filter_map (accepted c s) records))
      → (e : StorageError) × ((import_once c s r p client w).0 ≡ returned (err (storage e)))
        × (laws.rows (import_once c s r p client w).1.store ≡ laws.rows w.store)
  import_once-duplicate laws w records d twice =
      let good = filter_map (accepted c s) records in
      let (e, failed, kept) = replace_all-duplicate p laws good w.store twice in
      let (done, store) =
        run_once-storage_err (node_source c s r p client) (node_repository c s r p client) w good e
          (fetched_of w.upstream records d)
          (λ none_good. twice (subst (λ ns. KeysDistinct (rows_from 0 ns)) (sym none_good) tt))
          (ap returned failed) in
      (e, done, ap laws.rows store ∙ kept)
