-- ===== src/DataCache/Path.antt =====
-- Paths of the cache (internal/datacache/object.go, `normalisePath`), the base name that a write
-- falls back to, and the comparison of hex digests (store.go, `equalFold`).
use opendrive_bridge.Common.{
  ℕ, zero, suc, ◌+◌, Bool, true, false, ◌&&◌, [], ◌∷◌, ltb, leb, ◌==◌, length, if◌then◌else◌,
}
use opendrive_bridge.Common.Text.{Text, is_empty, contains, has_prefix, trim_space, slash}

abbrev pub is_slash : ℕ → Bool
is_slash c = c == slash

abbrev double_slash : Text
double_slash = slash ∷ slash ∷ []

-- `strings.ReplaceAll(p, "//", "/")`: from the left, and not again on what it wrote.
replace_doubles : Text → Text
replace_doubles [] = []
replace_doubles (a ∷ []) = a ∷ []
replace_doubles (a ∷ b ∷ s) =
    let both = replace_doubles s in
    let one = replace_doubles (b ∷ s) in if is_slash a && is_slash b then slash ∷ both else a ∷ one

-- The loop `for strings.Contains(p, "//")`. Every round shortens the text.
collapse_loop : ℕ → Text → Text
unfolding replace_doubles contains
collapse_loop zero p = p
collapse_loop (suc fuel) p =
    let again = collapse_loop fuel (replace_doubles p) in
    if contains p double_slash then again else p

-- `strings.TrimSuffix(p, "/")`.
trim_slash : Text → Text
trim_slash [] = []
trim_slash (c ∷ []) = if is_slash c then [] else c ∷ []
trim_slash (c ∷ d ∷ s) = c ∷ trim_slash (d ∷ s)

-- The statements of the function behind the loop. A text of one code point that is longer than
-- one byte has no slash to lose, so counting code points is counting bytes here.
finish_path : Text → Text
unfolding trim_slash has_prefix
finish_path p =
    let q = if ltb 1 (length p) then trim_slash p else p in
    if is_empty q then slash ∷ [] else if has_prefix q (slash ∷ []) then q else slash ∷ q

unfoldable pub normalise_path : Text → Text
unfolding collapse_loop finish_path trim_space
normalise_path p = let q = trim_space p in finish_path (collapse_loop (length q) q)

-- The text behind the last slash.
after_slash : Text → Text → Text
after_slash acc [] = acc
after_slash acc (c ∷ s) = if is_slash c then after_slash s s else after_slash acc s

-- `filepath.Base` of a normalised path: the last element, or the slash of the root.
unfoldable pub base_name : Text → Text
unfolding after_slash
base_name p = let name = after_slash p p in if is_empty name then slash ∷ [] else name

fold_letter : ℕ → ℕ
fold_letter c = if leb b'A' c && leb c b'Z' then c + 32 else c

unfoldable pub equal_fold : Text → Text → Bool
unfolding fold_letter
equal_fold [] [] = true
equal_fold [] (b ∷ t) = false
equal_fold (a ∷ s) [] = false
equal_fold (a ∷ s) (b ∷ t) = fold_letter a == fold_letter b && equal_fold s t
