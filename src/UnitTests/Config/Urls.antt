-- ===== src/UnitTests/Config/Urls.antt =====
-- Concrete parsers: a URL is a scheme of letters, perhaps a login before an `@`, and the rest; an
-- address starts with a digit.
use bipa_coding_challenge.Common.{
  ℕ, ◌==◌, leb, Bool, ◌&&◌, if◌then◌else◌, Option, none, some, Text, [], ◌∷◌, ◌++◌, codes, Result,
  ok, err,
}
use bipa_coding_challenge.Config.{Net}

-- The texts before and after the first mark; none before where there is no mark.
abbrev prepend : ℕ → Option Text × Text → Option Text × Text
prepend c (none, s) = (none, c ∷ s)
prepend c (some t, s) = (some (c ∷ t), s)

abbrev split_at : ℕ → Text → Option Text × Text
split_at mark [] = (none, [])
split_at mark (c ∷ s) =
    let later = split_at mark s in if c == mark then (some [], s) else prepend c later

pub record Url : Type 0 where
  pub scheme : Text
  pub user : Option Text
  pub password : Option Text
  pub rest : Text

abbrev is_letter : ℕ → Bool
is_letter c = leb b'a' c && leb c b'z'

-- A login is a user, or a user and a password.
abbrev with_login : Text → Text → Option Text × Text → Url
with_login scheme rest (none, user) = record {
  scheme = scheme;
  user = some user;
  password = none;
  rest = rest;
}
with_login scheme rest (some user, password) = record {
  scheme = scheme;
  user = some user;
  password = some password;
  rest = rest;
}

abbrev after_slashes : Text → Option Text × Text → Url
after_slashes scheme (none, rest) = record {
  scheme = scheme;
  user = none;
  password = none;
  rest = rest;
}
after_slashes scheme (some login, rest) = with_login scheme rest (split_at b':' login)

abbrev after_colon : Text → Text → Result Url Text
after_colon scheme (a ∷ b ∷ s) =
    if a == b'/' && b == b'/'
    then ok (after_slashes scheme (split_at b'@' s))
    else err (codes "relative URL without a base")
after_colon scheme _ = err (codes "relative URL without a base")

abbrev from_parts : Option Text × Text → Result Url Text
from_parts (some (c ∷ scheme), s) =
    if is_letter c then after_colon (c ∷ scheme) s else err (codes "relative URL without a base")
from_parts _ = err (codes "relative URL without a base")

abbrev print_login : Option Text → Option Text → Text
print_login none password = []
print_login (some user) none = user ++ b'@' ∷ []
print_login (some user) (some password) = user ++ b':' ∷ (password ++ b'@' ∷ [])

abbrev address : Text → Result Text Text
address (c ∷ s) =
    if leb b'0' c && leb c b'9' then ok (c ∷ s) else err (codes "invalid socket address syntax")
address [] = err (codes "invalid socket address syntax")

abbrev pub url_net : Net
url_net = record {
  SocketAddr = Text;
  Url = Url;
  parse_socket_addr = address;
  parse_url = λ raw. from_parts (split_at b':' raw);
  scheme = λ u. u.scheme;
  password = λ u. u.password;
  set_password = λ p u. some (record u { password = p });
  to_string = λ u. u.scheme ++ (codes "://" ++ (print_login u.user u.password ++ u.rest));
}
