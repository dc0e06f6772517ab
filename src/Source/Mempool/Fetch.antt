-- ===== src/Source/Mempool/Fetch.antt =====
-- When a fetch succeeds and with which nodes, and which failure it reports.
use bipa_coding_challenge.Common.{
  ℕ, ◌+◌, ◌-◌, ◌<◌, ◌≤◌, ◌≡◌, refl, ◌⊎◌, List, length, ok, err, Result-cases, Bool-cases, ◌∙◌, ap,
  subst, inl, inr, filter_map, arith,
}
use bipa_coding_challenge.Domain.Time.{Chrono}
use bipa_coding_challenge.Source.{SourceError, request, status, decode}
use bipa_coding_challenge.Source.Dto.{SerdeJson, parse_records}
use bipa_coding_challenge.Source.Dto.Records.{accepted, parse_records-nodes, parse_records-warnings}
use bipa_coding_challenge.Source.Mempool.{
  Response, Reqwest, Fetched, MempoolClient, tally, read_response, fetch_nodes,
}

module _ (r : Reqwest) (c : Chrono) (s : SerdeJson) (client : MempoolClient r)
    (network : r.Network) where
  -- A response with a success status, whose body decodes to these records.
  pub record Delivers (records : List s.Value) : Type 0 where
    pub response : Response
    pub body : List ℕ
    pub sent : (r.send client.http client.url network).0 ≡ ok response
    pub success : (200 ≤ response.code) × (response.code < 300)
    pub read : response.bytes ≡ ok body
    pub decoded : s.from_slice body ≡ ok records

  read_response-ok :
      (response : Response) (f : Fetched c.Instant)
      → (r.send client.http client.url network).0 ≡ ok response
      → read_response r c s response ≡ ok f
      → (records : List s.Value) × Delivers records
        × (f.nodes ≡ (parse_records c s records).0)
        × (f.warnings ≡ (parse_records c s records).1)
        × (f.received ≡ length records)
        × (f.valid ≡ length f.nodes)
        × (f.skipped ≡ f.received - f.valid)
  unfolding read_response
  read_response-ok response f sent h = elim (Bool-cases (r.is_success response.code)) [
    | inl good ↦ elim (Result-cases response.bytes) [
      | inl (body, read) ↦ elim (Result-cases (s.from_slice body)) [
        | inl (records, decoded) ↦ (
          records,
          record {
            response = response;
            body = body;
            sent = sent;
            success = (r.is_success_iff response.code).0 good;
            read = read;
            decoded = decoded;
          },
          ground arith,
          ground arith,
          ground arith,
          ground arith,
          ground arith,
        )
        | inr (m, e) ↦ absurd (ground arith)
      ]
      | inr (m, e) ↦ absurd (ground arith)
    ]
    | inr bad ↦ absurd (ground arith)
  ]

  -- A fetch that succeeds has got a 2xx response whose body is an array of records; its nodes are those
  -- of the acceptable records in their order, and every other record was logged: the counts of valid and
  -- skipped records that it logs add up to the count received.
  pub fetch_nodes-ok :
      (f : Fetched c.Instant)
      → (fetch_nodes r c s client network).0 ≡ ok f
      → (records : List s.Value) × Delivers records
        × (f.nodes ≡ filter_map (accepted c s) records)
        × (f.received ≡ length records)
        × (f.valid + f.skipped ≡ f.received)
        × (f.skipped ≡ length f.warnings)
  unfolding fetch_nodes
  fetch_nodes-ok f h = elim (Result-cases (r.send client.http client.url network).0) [
    | inl (response, sent) ↦
        let (records, delivers, nodes, warnings, received, valid, skipped) =
          read_response-ok response f sent (ground arith) in
        let counts = (parse_records-warnings c s records).0 in
        (
          records,
          delivers,
          nodes ∙ parse_records-nodes c s records,
          received,
          ground (arith, counts, ap length nodes),
          ground (arith, counts, ap length nodes, ap length warnings),
        )
    | inr (m, e) ↦ absurd (ground arith)
  ]

  -- Whenever a 2xx response delivers an array of records, the fetch succeeds, with the nodes of the
  -- acceptable records: no record can make it fail.
  pub fetch_nodes-total :
      (records : List s.Value)
      → Delivers records
      → ((fetch_nodes r c s client network).0 ≡ ok (tally r c s records))
        × ((tally r c s records).nodes ≡ filter_map (accepted c s) records)
  unfolding fetch_nodes tally
  fetch_nodes-total records d =
      let good = (r.is_success_iff d.response.code).1 d.success in
      (rw (d.sent, good, d.read, d.decoded), parse_records-nodes c s records)

  -- Why a fetch fails: the transport failed, before or within the body; the status is not 2xx; or a
  -- body with a 2xx status is no array.
  abbrev pub Fails : SourceError → Type 0
  Fails (request m) =
      ((r.send client.http client.url network).0 ≡ err m)
      ⊎ ((response : Response) × ((r.send client.http client.url network).0 ≡ ok response)
          × (response.bytes ≡ err m)
          × (200 ≤ response.code)
          × (response.code < 300))
  Fails (status n) =
      (response : Response) × ((r.send client.http client.url network).0 ≡ ok response)
      × (response.code ≡ n)
      × ¬ ((200 ≤ n) × (n < 300))
  Fails (decode m) =
      (response : Response) × (body : List ℕ) × ((r.send client.http client.url network).0
        ≡ ok response)
      × (response.bytes ≡ ok body)
      × (s.from_slice body ≡ err m)
      × (200 ≤ response.code)
      × (response.code < 300)

  read_response-err :
      (response : Response) (e : SourceError)
      → (r.send client.http client.url network).0 ≡ ok response
      → read_response r c s response ≡ err e
      → Fails e
  unfolding read_response
  read_response-err response e sent h = elim (Bool-cases (r.is_success response.code)) [
    | inl good ↦
        let (low, high) = (r.is_success_iff response.code).0 good in
        elim (Result-cases response.bytes) [
          | inl (body, read) ↦ elim (Result-cases (s.from_slice body)) [
            | inl (records, decoded) ↦ absurd (ground arith)
            | inr (m, failed) ↦
                let same : decode m ≡ e = ground arith in
                subst Fails same (response, body, sent, read, failed, low, high)
          ]
          | inr (m, failed) ↦
              let same : request m ≡ e = ground arith in
              subst Fails same (inr (response, sent, failed, low, high))
        ]
    | inr bad ↦
        let same : status response.code ≡ e = ground arith in
        subst Fails same
          (response, sent, refl, λ range. ground (arith, (r.is_success_iff response.code).1 range))
  ]

  -- A failed fetch reports its true cause: the transport error, the status of a response that is not
  -- 2xx (its body is not looked at), or the decoding error of a 2xx body.
  pub fetch_nodes-err : (e : SourceError) → (fetch_nodes r c s client network).0 ≡ err e → Fails e
  unfolding fetch_nodes
  fetch_nodes-err e h = elim (Result-cases (r.send client.http client.url network).0) [
    | inl (response, sent) ↦ read_response-err response e sent (ground arith)
    | inr (m, failed) ↦ let same : request m ≡ e = ground arith in subst Fails same (inl failed)
  ]
