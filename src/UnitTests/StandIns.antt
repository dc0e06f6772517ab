-- ===== src/UnitTests/StandIns.antt =====
-- What the assertions of the unit tests use of Rust's standard library, and concrete functions for the
-- code outside the repository, where those of `Tests` are too simple.
use bipa_coding_challenge.Common.{
  ℕ, ◌+◌, ◌==◌, Bool, true, false, ◌&&◌, ◌||◌, Text, List, [], ◌∷◌, codes, if◌then◌else◌, ok, err,
}
use bipa_coding_challenge.Storage.{configuration, io}
use bipa_coding_challenge.Storage.Connect.{Sqlx}

abbrev pub starts_with : Text → Text → Bool
starts_with s [] = true
starts_with [] (_ ∷ _) = false
starts_with (c ∷ s) (d ∷ t) = (c == d) && starts_with s t

-- `s.contains(t)`
abbrev pub contains : Text → Text → Bool
contains [] t = starts_with [] t
contains (c ∷ s) t = starts_with (c ∷ s) t || contains s t

-- The virtual time that a list of sleeps takes.
abbrev pub total : List ℕ → ℕ
total [] = 0
total (d ∷ delays) = d + total delays

-- No server listens, and a URL needs a scheme.
abbrev pub unreachable_sqlx : Sqlx
unreachable_sqlx = record {
  World = Unit {0};
  Pool = Unit {0};
  open_pool = λ connections timeout url w. (
    if contains url (codes "://")
        then err (io (codes "connection refused"))
        else err (configuration (codes "relative URL without a base")),
    w,
  );
  run_migrations = λ pool w. (ok tt, w);
  close = λ pool w. w;
}
