-- ===== src/UnitTests/Telemetry.antt =====
-- The unit test of src/telemetry.rs.
use bipa_coding_challenge.Common.{◌≡◌, refl, Bool, true, false, Text, codes, Result, ok, err}
use bipa_coding_challenge.Telemetry.{Tracing, init}

abbrev SecondInitReturnsErrorInsteadOfPanicking : {World : Type 0} → Tracing World → World → Type 0
SecondInitReturnsErrorInsteadOfPanicking t w = (m : Text) × ((init t (init t w).1).0 ≡ err m)

-- The world says whether a subscriber is installed.
abbrev install : Bool → Result (Unit {0}) Text × Bool
install true = (err (codes "a global default trace dispatcher has already been set"), true)
install false = (ok tt, true)

abbrev global : Tracing Bool
global = record {
  EnvFilter = Text;
  try_from_default_env = λ w. err (codes "environment variable not found");
  env_filter = λ directives. directives;
  is_terminal = λ w. false;
  try_init = λ filter ansi w. install w;
}

init_passes : SecondInitReturnsErrorInsteadOfPanicking global false
unfolding init
init_passes = (_, refl)
