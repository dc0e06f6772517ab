-- ===== src/Tests/Writer.antt =====
-- A concrete writer of compact JSON, which escapes quotes and backslashes, and a reader: it makes
-- tokens of the text from the left, and objects of the tokens.
use bipa_coding_challenge.Common.{
  ℕ, ◌≡◌, refl, ap, ◌==◌, Bool, true, false, ◌||◌, Bool-cases, inl, inr, Option, none, some, Text,
  List, [], ◌∷◌, if◌then◌else◌,
}
use bipa_coding_challenge.Http.Json.{Object, Json, object, array, SerdeWriter}

-- Whether a character is written behind a backslash.
abbrev pub is_escaped : ℕ → Bool
is_escaped c = c == b'"' || c == b'\\'

abbrev pub write_chars : Text → Text → Text
write_chars [] rest = b'"' ∷ rest
write_chars (c ∷ t) rest =
    let later = write_chars t rest in if is_escaped c then b'\\' ∷ c ∷ later else c ∷ later

abbrev pub write_member : Text × Text → Text → Text
write_member (key, value) rest = b'"' ∷ write_chars key (b':' ∷ b'"' ∷ write_chars value rest)

abbrev pub more_members : Object → Text → Text
more_members [] rest = b'}' ∷ rest
more_members (m ∷ members) rest = b',' ∷ write_member m (more_members members rest)

abbrev pub write_object : Object → Text → Text
write_object [] rest = b'{' ∷ b'}' ∷ rest
write_object (m ∷ members) rest = b'{' ∷ write_member m (more_members members rest)

abbrev pub more_objects : List Object → Text
more_objects [] = b']' ∷ []
more_objects (o ∷ objects) = b',' ∷ write_object o (more_objects objects)

abbrev pub write_objects : List Object → Text
write_objects [] = b']' ∷ []
write_objects (o ∷ objects) = write_object o (more_objects objects)

abbrev pub write : Json → Text
write (array objects) = b'[' ∷ write_objects objects
write (object o) = write_object o []

pub data Token : Type 0 where
  mark : ℕ → Token
  str : Text → Token

pub data Place : Type 0 where
  outside inside escaped : Place

-- Where the character after this one stands.
abbrev pub next : Place → ℕ → Place
next outside c = if c == b'"' then inside else outside
next inside c = if c == b'"' then outside else if c == b'\\' then escaped else inside
next escaped c = inside

abbrev pub add : Place → ℕ → Text × List Token → Text × List Token
add outside c (t, ts) = ([], (if c == b'"' then str t else mark c) ∷ ts)
add inside c (t, ts) = if c == b'"' then ([], ts) else if c == b'\\' then (t, ts) else (c ∷ t, ts)
add escaped c (t, ts) = (c ∷ t, ts)

-- The characters up to the end of the string that the place is in, and the tokens after it.
abbrev pub scan : Place → Text → Text × List Token
scan place [] = ([], [])
scan place (c ∷ s) = add place c (scan (next place c) s)

abbrev pub tokens : Text → List Token
tokens s = (scan outside s).1

abbrev pub opened : Bool → Object × List Object → Object × List Object
opened true (members, objects) = ([], members ∷ objects)
opened false r = r

-- The members of the object that is open, and the objects after it.
abbrev pub parse : List Token → Object × List Object
parse (mark c ∷ ts) = opened (c == b'{') (parse ts)
parse (str key ∷ mark _ ∷ str value ∷ ts) = let r = parse ts in ((key, value) ∷ r.0, r.1)
parse _ = ([], [])

abbrev pub first : List Object → Option Json
first [] = none
first (o ∷ _) = some (object o)

abbrev pub from_tokens : List Token → Option Json
from_tokens [] = none
from_tokens (str _ ∷ ts) = none
from_tokens (mark c ∷ ts) = elim (c == b'[') [
  | true ↦ some (array (parse ts).1)
  | false ↦ first (parse (mark c ∷ ts)).1
]

abbrev pub read : Text → Option Json
read s = from_tokens (tokens s)

scan-write_chars : (t rest : Text) → scan inside (write_chars t rest) ≡ (t, tokens rest)
scan-write_chars [] rest = refl
scan-write_chars (c ∷ t) rest =
    let later = scan-write_chars t rest in
    elim (Bool-cases (c == b'"')) [
      | inl quote ↦ rw (quote, later) refl
      | inr no_quote ↦ elim (Bool-cases (c == b'\\')) [
        | inl backslash ↦ rw (no_quote, backslash, later) refl
        | inr plain ↦ rw (no_quote, plain, no_quote, plain, later) refl
      ]
    ]

-- What a reader makes of a text.
abbrev pub parsed : Text → Object × List Object
parsed s = parse (tokens s)

parsed-write_member :
    (m : Text × Text) (rest : Text)
    → parsed (write_member m rest) ≡ (m ∷ (parsed rest).0, (parsed rest).1)
parsed-write_member (key, value) rest =
    rw (scan-write_chars key (b':' ∷ b'"' ∷ write_chars value rest), scan-write_chars value rest)
      refl

parsed-more_members :
    (o : Object) (rest : Text) (objects : List Object)
    → parsed rest ≡ ([], objects)
    → parsed (more_members o rest) ≡ (o, objects)
parsed-more_members [] rest objects h = h
parsed-more_members (m ∷ o) rest objects h =
    rw (parsed-write_member m (more_members o rest), parsed-more_members o rest objects h) refl

parsed-write_object :
    (o : Object) (rest : Text) (objects : List Object)
    → parsed rest ≡ ([], objects)
    → parsed (write_object o rest) ≡ ([], o ∷ objects)
parsed-write_object [] rest objects h = rw h refl
parsed-write_object (m ∷ o) rest objects h =
    rw (parsed-write_member m (more_members o rest), parsed-more_members o rest objects h) refl

parsed-more_objects : (objects : List Object) → parsed (more_objects objects) ≡ ([], objects)
parsed-more_objects [] = refl
parsed-more_objects (o ∷ objects) =
    parsed-write_object o (more_objects objects) objects (parsed-more_objects objects)

parsed-write_objects : (objects : List Object) → parsed (write_objects objects) ≡ ([], objects)
parsed-write_objects [] = refl
parsed-write_objects (o ∷ objects) =
    parsed-write_object o (more_objects objects) objects (parsed-more_objects objects)

read-write_object : (o : Object) → read (write_object o []) ≡ some (object o)
read-write_object [] = refl
read-write_object (m ∷ o) = ap (λ r. first r.1) (parsed-write_object (m ∷ o) [] [] refl)

pub read-write : (json : Json) → read (write json) ≡ some json
read-write (array objects) = ap (λ r. some (array r.1)) (parsed-write_objects objects)
read-write (object o) = read-write_object o

abbrev pub compact_writer : SerdeWriter
compact_writer = record { write = write; read = read; read-write = read-write }
