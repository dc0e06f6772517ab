-- ===== src/Tests/Redact.antt =====
-- The debug output of two configurations with different passwords.
use bipa_coding_challenge.Common.{
  ℕ, ◌≡◌, refl, ap, Option, none, some, Text, [], ◌∷◌, ◌++◌, codes, ◌==◌, if◌then◌else◌, ok,
}
use bipa_coding_challenge.Config.{Net, Config, debug_fields}
use bipa_coding_challenge.Config.Redact.{UrlLaws, debug_fields-rest}

-- What stands before the first `@` is the password.
abbrev prefix : ℕ → Option Text × Text → Option Text × Text
prefix c (none, s) = (none, c ∷ s)
prefix c (some p, s) = (some (c ∷ p), s)

abbrev split_at : Text → Option Text × Text
split_at [] = (none, [])
split_at (c ∷ s) = let later = split_at s in if c == b'@' then (some [], s) else prefix c later

abbrev print_login : Option Text × Text → Text
print_login (none, s) = s
print_login (some p, s) = p ++ b'@' ∷ s

abbrev login_net : Net
login_net = record {
  SocketAddr = Text;
  Url = Option Text × Text;
  parse_socket_addr = λ raw. ok raw;
  parse_url = λ raw. ok (split_at raw);
  scheme = λ u. codes "https";
  password = λ u. u.0;
  set_password = λ p u. some (p, u.1);
  to_string = print_login;
}

abbrev login_laws : UrlLaws login_net
login_laws = record {
  Rest = Text;
  rest = λ u. u.1;
  set_password-rest = λ p u v same. ap (λ s. some (p, s)) same;
}

abbrev config : Config login_net
config = record {
  database_url = [];
  bind_addr = codes "0.0.0.0:3000";
  mempool_url = (none, codes "mempool.space");
  import_interval = 60;
  http_client_timeout = 10;
}

debug_fields-rest_example :
    debug_fields login_net (record config { database_url = codes "secret@localhost/bipa" })
    ≡ debug_fields login_net (record config { database_url = codes "hunter2@localhost/bipa" })
debug_fields-rest_example =
    debug_fields-rest login_net login_laws config (codes "secret@localhost/bipa")
      (codes "hunter2@localhost/bipa") (some (codes "secret"), codes "localhost/bipa")
      (some (codes "hunter2"), codes "localhost/bipa") (codes "secret") (codes "hunter2") refl refl
      refl refl refl
