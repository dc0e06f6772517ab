-- ===== src/Config/Load.antt =====
-- What a loaded configuration guarantees, and what an error says.
use bipa_coding_challenge.Common.{
  ℕ, zero, suc, ◌^◌, ◌<◌, ◌≡◌, refl, ap, ◌∙◌, ◌⊎◌, ◌↔◌, inl, inr, [], ◌∷◌, Text, codes, text_eq_iff,
  Option, none, some, Result, ok, Result-cases, >>=-eq-ok, subst, arith,
}
use bipa_coding_challenge.Std.Decimal.{decimal}
use bipa_coding_challenge.Std.ParseInt.{parse_u64}
use bipa_coding_challenge.Std.ParseInt.Laws.{parse_u64-lt, parse_u64-decimal}
use bipa_coding_challenge.Config.{
  Net, Key, database_url_key, bind_addr_key, mempool_url_key, import_interval_key, http_timeout_key,
  unwrap_or, nonempty, positive_secs, parse_or_default, parse_positive_secs, Config, check_scheme,
  parse_http_url, get, load_database_url, load_bind_addr, load_mempool_url, load_import_interval,
  load_http_client_timeout, from_lookup, default_bind_addr, default_mempool_url,
  default_import_interval_secs, default_http_client_timeout_secs,
}

-- The seconds that a variable stands for: the default where it is unset or empty, and otherwise a
-- positive number in decimal that fits 64 bits.
abbrev pub IsSecs : Option Text → ℕ → ℕ → Type 0
IsSecs none default n = n ≡ default
IsSecs (some raw) default n = (parse_u64 raw ≡ ok n) × (0 < n) × (n < 2 ^ 64)

positive_secs-ok :
    (key : Key) (raw : Text) (n : ℕ)
    → positive_secs key raw (parse_u64 raw) ≡ ok n
    → (parse_u64 raw ≡ ok n) × (0 < n)
positive_secs-ok key raw n h = elim (Result-cases (parse_u64 raw)) [
  | inl (zero, e) ↦ absurd (ground arith)
  | inl (suc m, e) ↦ (ground arith, ground arith)
  | inr (x, e) ↦ absurd (ground arith)
]

parse_positive_secs-ok_iff :
    (key : Key) (value : Option Text) (default n : ℕ)
    → (parse_positive_secs key value default ≡ ok n) ↔ IsSecs value default n
unfolding parse_positive_secs
parse_positive_secs-ok_iff key none default n = (λ h. ground arith, λ h. ground arith)
parse_positive_secs-ok_iff key (some raw) default n = (
  λ h.
      let (parsed, positive) = positive_secs-ok key raw n h in
      (parsed, positive, parse_u64-lt raw n parsed),
  λ h. positive_of raw n h.0 h.1,
)
  where
    positive_of :
        (raw : Text) (n : ℕ)
        → parse_u64 raw ≡ ok n
        → 0 < n
        → positive_secs key raw (parse_u64 raw) ≡ ok n
    positive_of raw zero e p = elim p [ ]
    positive_of raw (suc m) e p = rw e

parse_or_default-ok :
    {T : Type 0} (key : Key) (value : Option Text) (default : Text) (parse : Text → Result T Text)
    (t : T)
    → (parse_or_default key value default parse ≡ ok t) ↔ (parse (unwrap_or value default) ≡ ok t)
unfolding parse_or_default
parse_or_default-ok key value default parse t = (λ h. ground arith, λ h. ground arith)

-- A positive 64-bit number of seconds, written in decimal, is read as that number.
pub parse_positive_secs-decimal :
    (key : Key) (default n : ℕ)
    → 0 < n
    → n < 2 ^ 64
    → parse_positive_secs key (some (decimal n)) default ≡ ok n
unfolding parse_positive_secs
parse_positive_secs-decimal key default zero p h = elim p [ ]
parse_positive_secs-decimal key default (suc n) p h = rw (parse_u64-decimal (suc n) h)

nonempty_idem : (o : Option Text) → nonempty (nonempty o) ≡ nonempty o
nonempty_idem none = refl
nonempty_idem (some []) = refl
nonempty_idem (some (c ∷ s)) = refl

module _ (net : Net) where
  abbrev pub IsHttp : net.Url → Type 0
  IsHttp url = (net.scheme url ≡ codes "http") ⊎ (net.scheme url ≡ codes "https")

  check_scheme-ok_iff :
      (url got : net.Url) → (check_scheme net url ≡ ok got) ↔ ((url ≡ got) × IsHttp url)
  unfolding check_scheme
  check_scheme-ok_iff url got =
      let http = text_eq_iff (net.scheme url) (codes "http") in
      let https = text_eq_iff (net.scheme url) (codes "https") in
      (
        λ h. (ground (arith, http, https), ground (arith, http, https)),
        λ h. ground (arith, http, https),
      )

  pub parse_http_url-ok_iff :
      (raw : Text) (url : net.Url)
      → (parse_http_url net raw ≡ ok url) ↔ ((net.parse_url raw ≡ ok url) × IsHttp url)
  unfolding parse_http_url
  parse_http_url-ok_iff raw url = (
    λ h.
        let (parsed, e, checked) = >>=-eq-ok (net.parse_url raw) (check_scheme net) h in
        let (same, http) = (check_scheme-ok_iff parsed url).0 checked in
        (e ∙ ap ok same, subst IsHttp same http),
    λ h. rw h.0 ((check_scheme-ok_iff url url).1 (refl, h.1)),
  )

  -- The configuration that the environment describes.
  pub record IsLoaded (lookup : Text → Option Text) (config : Config net) : Type 0 where
    pub database : get net lookup database_url_key ≡ some config.database_url
    pub bind :
        net.parse_socket_addr (unwrap_or (get net lookup bind_addr_key) default_bind_addr)
        ≡ ok config.bind_addr
    pub url :
        net.parse_url (unwrap_or (get net lookup mempool_url_key) default_mempool_url)
        ≡ ok config.mempool_url
    pub http : IsHttp config.mempool_url
    pub interval :
        IsSecs
          (get net lookup import_interval_key)
          default_import_interval_secs
          config.import_interval
    pub timeout :
        IsSecs
          (get net lookup http_timeout_key)
          default_http_client_timeout_secs
          config.http_client_timeout

  load_database_url-ok_iff :
      (lookup : Text → Option Text) (t : Text)
      → (load_database_url net lookup ≡ ok t) ↔ (get net lookup database_url_key ≡ some t)
  unfolding load_database_url
  load_database_url-ok_iff lookup t = (λ h. ground arith, λ h. ground arith)

  load_mempool_url-ok_iff :
      (lookup : Text → Option Text) (url : net.Url)
      → (load_mempool_url net lookup ≡ ok url) ↔ (
          (net.parse_url (unwrap_or (get net lookup mempool_url_key) default_mempool_url) ≡ ok url)
          × IsHttp url)
  load_mempool_url-ok_iff lookup url =
      let raw = unwrap_or (get net lookup mempool_url_key) default_mempool_url in
      let parsed =
        parse_or_default-ok mempool_url_key (get net lookup mempool_url_key) default_mempool_url
          (parse_http_url net) url in
      let checked = parse_http_url-ok_iff raw url in
      unfold load_mempool_url in (λ h. checked.0 (parsed.0 h), λ h. parsed.1 (checked.1 h))

  load_bind_addr-ok_iff :
      (lookup : Text → Option Text) (bind : net.SocketAddr)
      → (load_bind_addr net lookup ≡ ok bind) ↔ (
          net.parse_socket_addr (unwrap_or (get net lookup bind_addr_key) default_bind_addr)
          ≡ ok bind)
  unfolding load_bind_addr
  load_bind_addr-ok_iff lookup bind =
      parse_or_default-ok bind_addr_key (get net lookup bind_addr_key) default_bind_addr
        net.parse_socket_addr bind

  load_import_interval-ok_iff :
      (lookup : Text → Option Text) (n : ℕ)
      → (load_import_interval net lookup ≡ ok n)
        ↔ IsSecs (get net lookup import_interval_key) default_import_interval_secs n
  unfolding load_import_interval
  load_import_interval-ok_iff lookup n =
      parse_positive_secs-ok_iff import_interval_key (get net lookup import_interval_key)
        default_import_interval_secs n

  load_http_client_timeout-ok_iff :
      (lookup : Text → Option Text) (n : ℕ)
      → (load_http_client_timeout net lookup ≡ ok n)
        ↔ IsSecs (get net lookup http_timeout_key) default_http_client_timeout_secs n
  unfolding load_http_client_timeout
  load_http_client_timeout-ok_iff lookup n =
      parse_positive_secs-ok_iff http_timeout_key (get net lookup http_timeout_key)
        default_http_client_timeout_secs n

  stages :
      {lookup : Text → Option Text} {config : Config net} (database : Text) (bind : net.SocketAddr)
      (url : net.Url) (interval timeout : ℕ)
      → load_database_url net lookup ≡ ok database
      → load_bind_addr net lookup ≡ ok bind
      → load_mempool_url net lookup ≡ ok url
      → load_import_interval net lookup ≡ ok interval
      → load_http_client_timeout net lookup ≡ ok timeout
      → ◌≡◌ {A = Config net}
          (record {
            database_url = database;
            bind_addr = bind;
            mempool_url = url;
            import_interval = interval;
            http_client_timeout = timeout;
          })
          config
      → IsLoaded lookup config
  stages {lookup} database bind url interval timeout d b u i t same =
      let (parsed, http) = (load_mempool_url-ok_iff lookup url).0 u in
      subst (IsLoaded lookup) same (record {
        database = (load_database_url-ok_iff lookup database).0 d;
        bind = (load_bind_addr-ok_iff lookup bind).0 b;
        url = parsed;
        http = http;
        interval = (load_import_interval-ok_iff lookup interval).0 i;
        timeout = (load_http_client_timeout-ok_iff lookup timeout).0 t;
      })

  -- Loading gives a configuration exactly when it is the one that the environment describes: the
  -- database URL is set; the address and the http or https URL are the parsed values, each of the
  -- variable or else of its default; and both times are set positive 64-bit numbers or the defaults.
  pub from_lookup-ok_iff :
      (lookup : Text → Option Text) (config : Config net)
      → (from_lookup net lookup ≡ ok config) ↔ IsLoaded lookup config
  unfolding from_lookup
  from_lookup-ok_iff lookup config = (
    λ h. elim (Result-cases (load_database_url net lookup)) [
      | inr (e, failed) ↦ absurd (cc (rw failed at h))
      | inl (database, d) ↦ elim (Result-cases (load_bind_addr net lookup)) [
        | inr (e, failed) ↦ absurd (cc (rw (d, failed) at h))
        | inl (bind, b) ↦ elim (Result-cases (load_mempool_url net lookup)) [
          | inr (e, failed) ↦ absurd (cc (rw (d, b, failed) at h))
          | inl (url, u) ↦ elim (Result-cases (load_import_interval net lookup)) [
            | inr (e, failed) ↦ absurd (cc (rw (d, b, u, failed) at h))
            | inl (interval, i) ↦ elim (Result-cases (load_http_client_timeout net lookup)) [
              | inr (e, failed) ↦ absurd (cc (rw (d, b, u, i, failed) at h))
              | inl (timeout, t) ↦
                  stages database bind url interval timeout d b u i t (cc (rw (d, b, u, i, t) at h))
            ]
          ]
        ]
      ]
    ],
    λ l. rw (
      (load_database_url-ok_iff lookup config.database_url).1 l.database,
      (load_bind_addr-ok_iff lookup config.bind_addr).1 l.bind,
      (load_mempool_url-ok_iff lookup config.mempool_url).1 (l.url, l.http),
      (load_import_interval-ok_iff lookup config.import_interval).1 l.interval,
      (load_http_client_timeout-ok_iff lookup config.http_client_timeout).1 l.timeout,
    ),
  )

  -- A variable that is set to the empty text counts as unset: loading never tells the two apart.
  pub from_lookup-nonempty :
      (lookup : Text → Option Text)
      → from_lookup net (λ name. nonempty (lookup name)) ≡ from_lookup net lookup
  unfolding from_lookup load_database_url load_bind_addr load_mempool_url load_import_interval
      load_http_client_timeout
  from_lookup-nonempty lookup = simp nonempty_idem
