-- ===== src/Config/Toml.antt =====
-- A plain part of TOML, in which src/config.rs and its tests are configured: tables of texts, numbers
-- and truth values. The reader says what such a document stands for, and refuses all else.
use Prim.Native.String as Text
use Prim.Native.Char.{Char, code}
use mcloudtt.Prelude.{
  ℕ, ◌+◌, ◌-◌, ◌*◌, ltb, eqb, String, Option, none, some, Bool, true, false, not, ◌&&◌, ◌||◌, ◌==◌,
  List, [], ◌∷◌, if◌then◌else◌, is_some,
}

pub data Value : Type 0 where
  text : String → Value
  number : ℕ → Value
  truth : Bool → Value

-- A value, with its table and key.
pub record Entry : Type 0 where
  pub table : String
  pub key : String
  pub value : Value

abbrev pub is : ℕ → Char → Bool
is n c = eqb (code c) n

-- The lines of a text.
put_front : Char → List String → List String
put_front c [] = Text.◌∷◌ c Text.[] ∷ []
put_front c (l ∷ ls) = Text.◌∷◌ c l ∷ ls

unfoldable pub lines : String → List String
unfolding put_front
lines Text.[] = Text.[] ∷ []
lines (Text.◌∷◌ c s) = let rest = lines s in if is b'\n' c then Text.[] ∷ rest else put_front c rest

is_letter : Char → Bool
is_letter c = (ltb 96 (code c) && ltb (code c) 123) || is b'_' c

in_front : Char → String × String → String × String
in_front c (word, rest) = (Text.◌∷◌ c word, rest)

-- The small letters at the front, and what follows them.
unfoldable pub word : String → String × String
unfolding is_letter in_front
word Text.[] = (Text.[], Text.[])
word (Text.◌∷◌ c s) =
    let rest = in_front c (word s) in if is_letter c then rest else (Text.[], Text.◌∷◌ c s)

-- What is in quotes, without a quote, a backslash or a control character.
within : Char → Option String → Option String
within c none = none
within c (some s) =
    if is b'"' c || (is b'\\' c || ltb (code c) 32) then none else some (Text.◌∷◌ c s)

unfoldable pub quoted : String → Option String
unfolding within
quoted Text.[] = none
quoted (Text.◌∷◌ c Text.[]) = if is b'"' c then some Text.[] else none
quoted (Text.◌∷◌ c (Text.◌∷◌ d s)) = within c (quoted (Text.◌∷◌ d s))

is_digit : Char → Bool
is_digit c = ltb 47 (code c) && ltb (code c) 58

unfoldable pub digits : ℕ → String → Option ℕ
unfolding is_digit
digits n Text.[] = some n
digits n (Text.◌∷◌ c s) =
    let rest = digits (n * 10 + (code c - 48)) s in if is_digit c then rest else none

as_text : Option String → Option Value
as_text none = none
as_text (some s) = some (text s)

as_number : Option ℕ → Option Value
as_number none = none
as_number (some n) = some (number n)

-- A number has no zero in front.
unquoted : Char → String → Option Value
unquoted c s = if is b'0' c then none else as_number (digits 0 (Text.◌∷◌ c s))

unfoldable pub value_of : String → Option Value
unfolding quoted digits as_text as_number unquoted
value_of Text.[] = none
value_of (Text.◌∷◌ c s) =
    if Text.◌∷◌ c s == "true"
    then some (truth true)
    else if Text.◌∷◌ c s == "false"
    then some (truth false)
    else if is b'"' c
    then as_text (quoted s)
    else unquoted c s

after_equals : String → Option String
after_equals (Text.◌∷◌ a (Text.◌∷◌ b (Text.◌∷◌ c s))) =
    if is b' ' a && (is b'=' b && is b' ' c) then some s else none
after_equals _ = none

-- What has been read: the table that is open, the names of all tables, and the values.
record Reading : Type 0 where
  pub current : String
  pub tables : List String
  pub entries : List Entry

has_text : String → List String → Bool
has_text s [] = false
has_text s (x ∷ xs) = s == x || has_text s xs

unfoldable pub find_value : String → String → List Entry → Option Value
find_value table key [] = none
find_value table key (e ∷ es) =
    if table == e.table && key == e.key then some e.value else find_value table key es

-- No table is opened twice.
open_table : String × String → Reading → Option Reading
unfolding has_text
open_table (name, rest) r =
    if not (name == "") && (rest == "]" && not (has_text name r.tables))
    then some (record r { current = name; tables = name ∷ r.tables })
    else none

put_value : String → Option Value → Reading → Option Reading
put_value key none r = none
put_value key (some v) r =
    some (record r { entries = record { table = r.current; key = key; value = v } ∷ r.entries })

after : String → Option String → Reading → Option Reading
unfolding put_value
after key none r = none
after key (some s) r = put_value key (value_of s) r

-- No key is given twice, and none outside the tables.
add_entry : String × String → Reading → Option Reading
unfolding after after_equals find_value
add_entry (key, rest) r =
    if not (key == "")
      && (not (r.current == "") && not (is_some (find_value r.current key r.entries)))
    then after key (after_equals rest) r
    else none

read_line : String → Reading → Option Reading
unfolding open_table add_entry
read_line Text.[] r = some r
read_line (Text.◌∷◌ c s) r =
    if is b'[' c then open_table (word s) r else add_entry (word (Text.◌∷◌ c s)) r

read_lines : List String → Option Reading → Option (List Entry)
unfolding read_line
read_lines ls none = none
read_lines [] (some r) = some r.entries
read_lines (l ∷ ls) (some r) = read_lines ls (read_line l r)

-- The values of a document, if it is a plain one.
unfoldable pub read_toml : String → Option (List Entry)
unfolding read_lines lines word value_of
read_toml s = read_lines (lines s) (some (record { current = ""; tables = []; entries = [] }))
