-- ===== src/Config/Errors.antt =====
-- What an error of loading the configuration says.
use bipa_coding_challenge.Common.{
  ℕ, zero, suc, ◌≡◌, refl, sym, ◌∙◌, ◌⊎◌, inl, inr, Text, codes, Option, Option-cases, none, some,
  Result, ok, err, Result-cases, subst,
}
use bipa_coding_challenge.Std.ParseInt.{parse_u64}
use bipa_coding_challenge.Config.{
  Net, Key, database_url_key, bind_addr_key, mempool_url_key, import_interval_key, http_timeout_key,
  ConfigError, missing, invalid, zero_reason, parse_int_message, parse_or_default,
  parse_positive_secs, parse_http_url, get, load_database_url, load_bind_addr, load_mempool_url,
  load_import_interval, load_http_client_timeout, from_lookup, default_bind_addr,
  default_mempool_url, default_import_interval_secs, default_http_client_timeout_secs,
}
use bipa_coding_challenge.Config.Load.{parse_http_url-ok_iff}

-- The error of a number of seconds carries the value that is set.
parse_positive_secs-err :
    (key : Key) (value : Option Text) (default : ℕ) (e : ConfigError)
    → parse_positive_secs key value default ≡ err e
    → (raw : Text) × (reason : Text) × (value ≡ some raw) × (e ≡ invalid key raw reason)
unfolding parse_positive_secs
parse_positive_secs-err key none default e h = absurd (cc)
parse_positive_secs-err key (some raw) default e h = elim (Result-cases (parse_u64 raw)) [
  | inl (zero, p) ↦ (raw, zero_reason, refl, cc (rw p at h))
  | inl (suc m, p) ↦ absurd (cc (rw p at h))
  | inr (x, p) ↦ (raw, parse_int_message x, refl, cc (rw p at h))
]

parse_or_default-err :
    {T : Type 0} (key : Key) (value : Option Text) (default : Text) (parse : Text → Result T Text)
    (e : ConfigError) (t : T)
    → parse default ≡ ok t
    → parse_or_default key value default parse ≡ err e
    → (raw : Text) × (reason : Text) × (value ≡ some raw) × (e ≡ invalid key raw reason)
unfolding parse_or_default
parse_or_default-err key none default parse e t good h = absurd (cc (rw good at h))
parse_or_default-err key (some raw) default parse e t good h = elim (Result-cases (parse raw)) [
  | inl (u, p) ↦ absurd (cc (rw p at h))
  | inr (reason, p) ↦ (raw, reason, refl, cc (rw p at h))
]

module _ (net : Net) where
  -- The defaults of the address and of the URL are accepted.
  pub record DefaultsParse : Type 0 where
    pub default_addr : net.SocketAddr
    pub addr_parses : net.parse_socket_addr default_bind_addr ≡ ok default_addr
    pub default_url : net.Url
    pub url_parses : net.parse_url default_mempool_url ≡ ok default_url
    pub url_http : net.scheme default_url ≡ codes "https"

  -- An error blames a variable: the database URL that is not set, or the value that is set.
  abbrev pub Blames : (Text → Option Text) → ConfigError → Type 0
  Blames lookup (missing key) = (key ≡ database_url_key) × (get net lookup key ≡ none)
  Blames lookup (invalid key value reason) = get net lookup key ≡ some value

  -- What a variable's refused value makes of the error.
  blamed :
      (lookup : Text → Option Text) (key : Key) (e : ConfigError)
      → (raw : Text) × (reason : Text) × (get net lookup key ≡ some raw)
        × (e ≡ invalid key raw reason)
      → Blames lookup e
  blamed lookup key e (raw, reason, set, same) = subst (Blames lookup) (sym same) set

  module _ (defaults : DefaultsParse) where
    open defaults use {default_addr, addr_parses, default_url, url_parses, url_http}

    load_database_url-err :
        (lookup : Text → Option Text) (e : ConfigError)
        → load_database_url net lookup ≡ err e
        → Blames lookup e
    unfolding load_database_url
    load_database_url-err lookup e h = elim (Option-cases (get net lookup database_url_key)) [
      | inl unset ↦
          let same : missing database_url_key ≡ e = cc (rw unset at h) in
          subst (Blames lookup) same (refl, unset)
      | inr (t, set) ↦ absurd (cc (rw set at h))
    ]

    load_bind_addr-err :
        (lookup : Text → Option Text) (e : ConfigError)
        → load_bind_addr net lookup ≡ err e
        → Blames lookup e
    unfolding load_bind_addr
    load_bind_addr-err lookup e h = blamed lookup bind_addr_key e (
        parse_or_default-err bind_addr_key (get net lookup bind_addr_key) default_bind_addr
          net.parse_socket_addr e default_addr addr_parses h)

    load_mempool_url-err :
        (lookup : Text → Option Text) (e : ConfigError)
        → load_mempool_url net lookup ≡ err e
        → Blames lookup e
    load_mempool_url-err lookup e h =
        let good =
          (parse_http_url-ok_iff net default_mempool_url default_url).1
            (url_parses, inr url_http) in
        blamed lookup mempool_url_key e (
          parse_or_default-err mempool_url_key (get net lookup mempool_url_key) default_mempool_url
            (parse_http_url net) e default_url good (unfold load_mempool_url in h))

    load_secs-err :
        (lookup : Text → Option Text) (e : ConfigError)
        → (load_import_interval net lookup ≡ err e) ⊎ (load_http_client_timeout net lookup ≡ err e)
        → Blames lookup e
    unfolding load_import_interval load_http_client_timeout
    load_secs-err lookup e (inl h) = blamed lookup import_interval_key e (
        parse_positive_secs-err import_interval_key (get net lookup import_interval_key)
          default_import_interval_secs e h)
    load_secs-err lookup e (inr h) = blamed lookup http_timeout_key e (
        parse_positive_secs-err http_timeout_key (get net lookup http_timeout_key)
          default_http_client_timeout_secs e h)

    -- Where the defaults of the address and the URL parse, an error of loading either says that the
    -- database URL is missing, and then that variable is unset or empty, or names a variable together
    -- with exactly the non-empty value that the environment gives it.
    pub from_lookup-err :
        (lookup : Text → Option Text) (e : ConfigError)
        → from_lookup net lookup ≡ err e
        → Blames lookup e
    unfolding from_lookup
    from_lookup-err lookup e h = elim (Result-cases (load_database_url net lookup)) [
      | inr (x, failed) ↦ load_database_url-err lookup e (failed ∙ cc (rw failed at h))
      | inl (database, d) ↦ elim (Result-cases (load_bind_addr net lookup)) [
        | inr (x, failed) ↦ load_bind_addr-err lookup e (failed ∙ cc (rw (d, failed) at h))
        | inl (bind, b) ↦ elim (Result-cases (load_mempool_url net lookup)) [
          | inr (x, failed) ↦ load_mempool_url-err lookup e (failed ∙ cc (rw (d, b, failed) at h))
          | inl (url, u) ↦ elim (Result-cases (load_import_interval net lookup)) [
            | inr (x, failed) ↦
                load_secs-err lookup e (inl (failed ∙ cc (rw (d, b, u, failed) at h)))
            | inl (interval, i) ↦ elim (Result-cases (load_http_client_timeout net lookup)) [
              | inr (x, failed) ↦
                  load_secs-err lookup e (inr (failed ∙ cc (rw (d, b, u, i, failed) at h)))
              | inl (timeout, t) ↦ absurd (cc (rw (d, b, u, i, t) at h))
            ]
          ]
        ]
      ]
    ]
