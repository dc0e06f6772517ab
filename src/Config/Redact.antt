-- ===== src/Config/Redact.antt =====
-- What the debug output of a configuration keeps secret.
use bipa_coding_challenge.Common.{◌≡◌, Option, some, Text, codes, ok}
use bipa_coding_challenge.Config.{Net, Config, redact_url, redact_database_url, debug_fields}

module _ (net : Net) where
  -- A URL is its password and the rest of it; setting a password replaces that part and depends on the
  -- rest only, as does its failure, where the URL can have no password.
  pub record UrlLaws : Type 1 where
    pub Rest : Type 0
    pub rest : net.Url → Rest
    pub set_password-rest :
        (p : Option Text) (u v : net.Url)
        → rest u ≡ rest v
        → net.set_password p u ≡ net.set_password p v

  module _ (laws : UrlLaws) where
    open laws use {rest, set_password-rest}

    redact_url-rest :
        (u v : net.Url) (p q : Text)
        → net.password u ≡ some p
        → net.password v ≡ some q
        → rest u ≡ rest v
        → redact_url net u ≡ redact_url net v
    unfolding redact_url
    redact_url-rest u v p q has_p has_q same =
        rw (has_p, redact_url, has_q, set_password-rest (some (codes "***")) u v same)

    redact_database_url-rest :
        (raw other_raw : Text) (u v : net.Url) (p q : Text)
        → net.parse_url raw ≡ ok u
        → net.parse_url other_raw ≡ ok v
        → net.password u ≡ some p
        → net.password v ≡ some q
        → rest u ≡ rest v
        → redact_database_url net raw ≡ redact_database_url net other_raw
    unfolding redact_database_url
    redact_database_url-rest raw other_raw u v p q parsed parsed' has_p has_q same =
        rw (parsed, redact_database_url, parsed') (redact_url-rest u v p q has_p has_q same)

    -- Two configurations whose database URLs both have a password, and differ in nothing but that
    -- password, have the same debug output: it tells nothing of the password, not even its length.
    pub debug_fields-rest :
        (config : Config net) (raw other_raw : Text) (u v : net.Url) (p q : Text)
        → net.parse_url raw ≡ ok u
        → net.parse_url other_raw ≡ ok v
        → net.password u ≡ some p
        → net.password v ≡ some q
        → rest u ≡ rest v
        → debug_fields net (record config { database_url = raw })
          ≡ debug_fields net (record config { database_url = other_raw })
    unfolding debug_fields
    debug_fields-rest config raw other_raw u v p q parsed parsed' has_p has_q same =
        rw (redact_database_url-rest raw other_raw u v p q parsed parsed' has_p has_q same)
