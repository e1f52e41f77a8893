-- ===== src/Keystore/Env.antt =====
-- The plain text inside the credential file (internal/keystore/env.go): `parseEnv`, `renderEnv` and
-- the escapes. The fields are a map from names to values.
use opendrive_bridge.Common.{
  ℕ, Bool, not, ◌&&◌, ◌||◌, Option, none, some, List, [], ◌∷◌, ◌++◌, any, ltb, ◌==◌, if◌then◌else◌,
}
use opendrive_bridge.Common.Text.{
  Text, codes, text_eq, text_before, is_empty, is_space, has_prefix, drop_prefix, trim_space,
}
use opendrive_bridge.Common.Dict.{Dict, find, insert, keys}
use opendrive_bridge.Common.Sort.{sort_by}

-- `strings.ReplaceAll` of one character by two.
unfoldable pub replace_char : ℕ → ℕ → ℕ → Text → Text
replace_char c a b [] = []
replace_char c a b (x ∷ s) =
    let rest = replace_char c a b s in if x == c then a ∷ b ∷ rest else x ∷ rest

-- `strings.ReplaceAll` of two characters by one: from the left, and not again on what it wrote.
unfoldable pub replace_pair : ℕ → ℕ → ℕ → Text → Text
replace_pair a b r [] = []
replace_pair a b r (x ∷ []) = x ∷ []
replace_pair a b r (x ∷ y ∷ s) =
    let both = replace_pair a b r s in
    let one = replace_pair a b r (y ∷ s) in if x == a && y == b then r ∷ both else x ∷ one

abbrev pub backslash : ℕ
backslash = 92

abbrev pub quote : ℕ
quote = 34

abbrev pub apostrophe : ℕ
apostrophe = 39

abbrev pub equals : ℕ
equals = 61

abbrev pub line_end : ℕ
line_end = 10

-- `escapeQuoted`.
unfoldable pub escape_quoted : Text → Text
unfolding replace_char
escape_quoted v = replace_char quote backslash quote (replace_char backslash backslash backslash v)

-- `unescapeQuoted`.
unfoldable pub unescape_quoted : Text → Text
unfolding replace_pair
unescape_quoted v =
    replace_pair backslash backslash backslash (replace_pair backslash quote quote v)

-- The characters of `" \t\"'#=\\"`.
abbrev pub is_special : ℕ → Bool
is_special c =
    c == 32 || c == 9 || c == quote || c == apostrophe || c == 35 || c == equals || c == backslash

-- `needsQuote`.
unfoldable pub needs_quote : Text → Bool
unfolding text_eq trim_space is_space
needs_quote v =
    is_empty v
    || not (text_eq v (trim_space v))
    || any is_special v
    || any (λ c. is_space c || ltb c 32) v

-- A value as `renderEnv` writes it.
unfoldable pub written : Text → Text
unfolding needs_quote escape_quoted
written v = if needs_quote v then quote ∷ (escape_quoted v ++ (quote ∷ [])) else v

abbrev pub value_of : Text → Dict Text → Text
value_of k m = elim (find k m) [ none ↦ [] | some v ↦ v ]

unfoldable pub render_fields : List Text → Dict Text → Text
unfolding written
render_fields [] m = []
render_fields (k ∷ ks) m = (k ++ equals ∷ written (value_of k m)) ++ line_end ∷ render_fields ks m

-- `renderEnv`.
unfoldable pub render_env : Dict Text → Text
unfolding render_fields text_before
render_env m = render_fields (sort_by text_before (keys m)) m

abbrev pub put_first : ℕ → List Text → List Text
put_first c [] = (c ∷ []) ∷ []
put_first c (l ∷ ls) = (c ∷ l) ∷ ls

-- `strings.Split(s, "\n")`.
unfoldable pub split_lines : Text → List Text
split_lines [] = [] ∷ []
split_lines (c ∷ s) =
    let rest = split_lines s in if c == line_end then [] ∷ rest else put_first c rest

-- `strings.Cut` at one character.
unfoldable pub cut : ℕ → Text → Option (Text × Text)
cut c [] = none
cut c (x ∷ s) =
    let rest = cut c s in
    if x == c then some ([], s) else elim rest [ none ↦ none | some (a, b) ↦ some (x ∷ a, b) ]

-- The text without its last character, if that is `q`.
unfoldable pub before_last : ℕ → Text → Option Text
before_last q [] = none
before_last q (c ∷ []) = if c == q then some [] else none
before_last q (c ∷ d ∷ s) = elim (before_last q (d ∷ s)) [ none ↦ none | some t ↦ some (c ∷ t) ]

-- The text between two characters `q`, if it starts and ends with them.
unfoldable pub enclosed : ℕ → Text → Option Text
unfolding before_last
enclosed q [] = none
enclosed q (c ∷ s) = if c == q then before_last q s else none

-- A value as `parseEnv` reads it.
unfoldable pub read_value : Text → Text
unfolding enclosed unescape_quoted
read_value v = elim (enclosed quote v) [
  | some t ↦ unescape_quoted t
  | none ↦ elim (enclosed apostrophe v) [ some t ↦ t | none ↦ v ]
]

abbrev pub export_word : Text
export_word = codes "export "

-- What `strings.Cut` gave, as a field.
unfoldable pub read_cut : Option (Text × Text) → Option (Text × Text)
unfolding read_value trim_space
read_cut none = none
read_cut (some (a, b)) =
    let k = trim_space a in
    let v = read_value (trim_space b) in if is_empty k || is_empty v then none else some (k, v)

-- One line of `parseEnv`, behind its trimming: the field that it sets, if it sets one.
unfoldable pub read_assignment : Text → Option (Text × Text)
unfolding cut read_cut has_prefix drop_prefix
read_assignment line =
    if is_empty line || has_prefix line (35 ∷ [])
    then none
    else (let l = if has_prefix line export_word then drop_prefix line export_word else line in
        read_cut (cut equals l))

unfoldable pub read_lines : List Text → Dict Text → Dict Text
unfolding read_assignment
read_lines [] out = out
read_lines (l ∷ ls) out = elim (read_assignment (trim_space l)) [
  | none ↦ read_lines ls out
  | some (k, v) ↦ read_lines ls (insert k v out)
]

-- `parseEnv`.
unfoldable pub parse_env : Text → Dict Text
unfolding split_lines read_lines
parse_env raw = read_lines (split_lines raw) []
