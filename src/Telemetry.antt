-- ===== src/Telemetry.antt =====
-- src/telemetry.rs: the installation of the global subscriber. tracing_subscriber is a parameter.
use bipa_coding_challenge.Common.{Bool, Text, codes, Result, ok, err}

-- `World` is what a process shares, the global subscriber included.
pub record Tracing (World : Type 0) : Type 1 where
  pub EnvFilter : Type 0
  -- `EnvFilter::try_from_default_env()`, which reads `RUST_LOG`
  pub try_from_default_env : World → Result EnvFilter Text
  -- `EnvFilter::new(directives)`
  pub env_filter : Text → EnvFilter
  -- `std::io::stdout().is_terminal()`
  pub is_terminal : World → Bool
  -- `registry().with(filter).with(fmt::layer().with_ansi(ansi)).try_init()`
  pub try_init : EnvFilter → Bool → World → Result (Unit {0}) Text × World

abbrev pub default_filter : Text
default_filter = codes "info,sqlx=warn"

module _ {World : Type 0} (t : Tracing World) where
  abbrev pub or_default : Result t.EnvFilter Text → t.EnvFilter
  or_default (ok filter) = filter
  or_default (err _) = t.env_filter default_filter

  unfoldable pub init : World → Result (Unit {0}) Text × World
  init w = t.try_init (or_default (t.try_from_default_env w)) (t.is_terminal w) w
