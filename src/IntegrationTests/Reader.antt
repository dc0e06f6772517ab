-- ===== src/IntegrationTests/Reader.antt =====
-- A reader of JSON, for `serde_json::from_slice`: an automaton with a stack of the arrays and objects that
-- are open. Texts come as code points, and of the escapes it knows those of the quote and the backslash.
use bipa_coding_challenge.Common.{
  ℕ, zero, suc, ◌+◌, ◌-◌, ◌*◌, ◌==◌, Bool, true, false, ◌&&◌, ◌||◌, Text, List, [], ◌∷◌, codes, leb,
  if◌then◌else◌, Result, ok, err,
}
use bipa_coding_challenge.Common.Int.{ℤ, pos, negsuc}
use bipa_coding_challenge.Source.Dto.{SerdeJson}
use bipa_coding_challenge.UnitTests.Dto.Trees.{
  Tree, null, number, text, array, object, Items, no_item, item, Members, no_member, member,
  dto_from_value,
}

-- What is open, with what it holds so far, the last first.
pub data Frame : Type 0 where
  in_array : List Tree → Frame
  in_object : List (Text × Tree) → Frame
  in_member : Text → List (Text × Tree) → Frame

pub data Mode : Type 0 where
  at_value at_next at_name at_colon : Mode
  in_text in_escape in_name : Text → Mode
  in_number : Bool → ℕ → Mode
  in_null : ℕ → Mode

pub data Reading : Type 0 where
  reading : Mode → List Frame → Reading
  complete : Tree → Reading
  failed : Reading

abbrev items : Items → List Tree → Items
items given [] = given
items given (t ∷ before) = items (item t given) before

abbrev fields : Members → List (Text × Tree) → Members
fields given [] = given
fields given ((name, t) ∷ before) = fields (member name t given) before

abbrev reversed : Text → Text → Text
reversed given [] = given
reversed given (c ∷ before) = reversed (c ∷ given) before

-- A value is read.
abbrev put : Tree → List Frame → Reading
put t [] = complete t
put t (in_array before ∷ open_ones) = reading at_next (in_array (t ∷ before) ∷ open_ones)
put t (in_member name before ∷ open_ones) =
    reading at_next (in_object ((name, t) ∷ before) ∷ open_ones)
put t (in_object before ∷ open_ones) = failed

abbrev close_array : List Frame → Reading
close_array (in_array before ∷ open_ones) = put (array (items no_item before)) open_ones
close_array _ = failed

abbrev close_object : List Frame → Reading
close_object (in_object before ∷ open_ones) = put (object (fields no_member before)) open_ones
close_object _ = failed

-- An array or object that is empty is closed where a value or a name could begin.
abbrev close_empty_array : List Frame → Reading
close_empty_array (in_array [] ∷ open_ones) = put (array no_item) open_ones
close_empty_array _ = failed

abbrev close_empty_object : List Frame → Reading
close_empty_object (in_object [] ∷ open_ones) = put (object no_member) open_ones
close_empty_object _ = failed

abbrev named : Text → List Frame → Reading
named name (in_object before ∷ open_ones) = reading at_colon (in_member name before ∷ open_ones)
named name _ = failed

abbrev after_comma : List Frame → Reading
after_comma (in_array before ∷ open_ones) = reading at_value (in_array before ∷ open_ones)
after_comma (in_object before ∷ open_ones) = reading at_name (in_object before ∷ open_ones)
after_comma _ = failed

abbrev is_digit : ℕ → Bool
is_digit c = leb b'0' c && leb c b'9'

abbrev is_space : ℕ → Bool
is_space c = (c == b' ') || (c == b'\n')

abbrev integer : Bool → ℕ → ℤ
integer false n = pos n
integer true zero = pos 0
integer true (suc n) = negsuc n

abbrev begin_value : ℕ → List Frame → Reading
begin_value c open_ones =
    if is_space c
    then reading at_value open_ones
    else if c == b'"'
    then reading (in_text []) open_ones
    else if c == b'['
    then reading at_value (in_array [] ∷ open_ones)
    else if c == b'{'
    then reading at_name (in_object [] ∷ open_ones)
    else if c == b']'
    then close_empty_array open_ones
    else if c == b'-'
    then reading (in_number true 0) open_ones
    else if c == b'n'
    then reading (in_null 3) open_ones
    else if is_digit c
    then reading (in_number false (c - b'0')) open_ones
    else failed

abbrev go_on : ℕ → List Frame → Reading
go_on c open_ones =
    if is_space c
    then reading at_next open_ones
    else if c == b','
    then after_comma open_ones
    else if c == b']'
    then close_array open_ones
    else if c == b'}'
    then close_object open_ones
    else failed

abbrev resumed_at : ℕ → Reading → Reading
resumed_at c (reading at_next open_ones) = go_on c open_ones
resumed_at c _ = failed

abbrev step : ℕ → Reading → Reading
step c (complete t) = if is_space c then complete t else failed
step c failed = failed
step c (reading at_value open_ones) = begin_value c open_ones
step c (reading at_next open_ones) = go_on c open_ones
step c (reading at_name open_ones) =
    if is_space c
    then reading at_name open_ones
    else if c == b'"'
    then reading (in_name []) open_ones
    else if c == b'}'
    then close_empty_object open_ones
    else failed
step c (reading at_colon open_ones) =
    if is_space c
    then reading at_colon open_ones
    else if c == b':'
    then reading at_value open_ones
    else failed
step c (reading (in_text before) open_ones) =
    if c == b'"'
    then put (text (reversed [] before)) open_ones
    else if c == b'\\'
    then reading (in_escape before) open_ones
    else reading (in_text (c ∷ before)) open_ones
step c (reading (in_escape before) open_ones) = reading (in_text (c ∷ before)) open_ones
step c (reading (in_name before) open_ones) =
    if c == b'"'
    then named (reversed [] before) open_ones
    else reading (in_name (c ∷ before)) open_ones
step c (reading (in_number negative n) open_ones) =
    if is_digit c
    then reading (in_number negative (10 * n + (c - b'0'))) open_ones
    else resumed_at c (put (number (integer negative n)) open_ones)
step c (reading (in_null zero) open_ones) = failed
step c (reading (in_null (suc zero)) open_ones) = put null open_ones
step c (reading (in_null (suc (suc n))) open_ones) = reading (in_null (suc n)) open_ones

unfoldable pub read : Text → Reading → Reading
read [] r = r
read (c ∷ more) r = read more (step c r)

abbrev listed : Items → List Tree
listed no_item = []
listed (item t more) = t ∷ listed more

abbrev as_array : Reading → Result (List Tree) Text
as_array (complete (array given)) = ok (listed given)
as_array (complete _) = err (codes "invalid type, expected a sequence")
as_array _ = err (codes "expected value")

unfoldable pub read_array : Text → Result (List Tree) Text
unfolding read
read_array body = as_array (read body (reading at_value []))

abbrev pub text_json : SerdeJson
text_json = record { Value = Tree; from_value = dto_from_value; from_slice = read_array }
