-- ===== src/UnitTests/Dto/Trees.antt =====
-- JSON values as trees, and what serde derives from the struct `MempoolNodeDto` on them.
use bipa_coding_challenge.Common.{
  Text, List, [], ◌∷◌, codes, text_eq, if◌then◌else◌, Result, ok, err, ◌>>=◌,
}
use bipa_coding_challenge.Common.Int.{ℤ, is_i64}
use bipa_coding_challenge.Source.Dto.{MempoolNodeDto, SerdeJson}

mutual
  pub data Tree : Type 0 where
    null : Tree
    number : ℤ → Tree
    text : Text → Tree
    array : Items → Tree
    object : Members → Tree

  pub data Items : Type 0 where
    no_item : Items
    item : Tree → Items → Items

  pub data Members : Type 0 where
    no_member : Members
    member : Text → Tree → Members → Members

-- An object by its members, and one whose values are texts.
abbrev pub members : List (Text × Tree) → Members
members [] = no_member
members ((name, value) ∷ more) = member name value (members more)

abbrev text_members : List (Text × Text) → Members
text_members [] = no_member
text_members ((name, value) ∷ more) = member name (text value) (text_members more)

abbrev pub texts : List (Text × Text) → Tree
texts more = object (text_members more)

-- The value of a name; serde calls a name that is not there a missing field.
abbrev field : Text → Members → Result Tree Text
field name no_member = err (codes "missing field")
field name (member n value more) =
    let rest = field name more in if text_eq n name then ok value else rest

abbrev as_text : Tree → Result Text Text
as_text (text t) = ok t
as_text _ = err (codes "invalid type, expected a string")

abbrev as_i64 : Tree → Result ℤ Text
as_i64 (number n) = if is_i64 n then ok n else err (codes "number out of range")
as_i64 _ = err (codes "invalid type, expected i64")

-- Names that the struct does not have are ignored.
unfoldable pub dto_from_value : Tree → Result MempoolNodeDto Text
dto_from_value (object given) = do
  public_key_value ← field (codes "publicKey") given
  public_key ← as_text public_key_value
  alias_value ← field (codes "alias") given
  alias ← as_text alias_value
  capacity_value ← field (codes "capacity") given
  capacity ← as_i64 capacity_value
  first_seen_value ← field (codes "firstSeen") given
  first_seen ← as_i64 first_seen_value
  ok (record {
    public_key = public_key;
    alias = alias;
    capacity = capacity;
    first_seen = first_seen;
  })
dto_from_value _ = err (codes "invalid type, expected struct MempoolNodeDto")

abbrev pub tree_json : SerdeJson
tree_json = record {
  Value = Tree;
  from_value = dto_from_value;
  from_slice = λ bytes. err (codes "no text is read here");
}
