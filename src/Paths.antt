-- ===== src/Paths.antt =====
-- Paths of the account: the library's (pkg/opendrive/path.go, with the names of types.go), the
-- server's (internal/server/paths.go) and the program's check (internal/cli/remotepath.go). Messages
-- are left out of the errors.
pub mod Segments
pub mod Canonical
pub mod Agreement
pub mod Repeating
pub mod Parents
pub mod Resolving
pub mod Ensured
mod Tests
use opendrive_bridge.Common.{
  ℕ, zero, suc, ◌+◌, Bool, true, false, not, ◌&&◌, ◌||◌, Option, none, some, List, [], ◌∷◌, ◌++◌,
  map, any, filter, length, sum_by, ltb, leb, ◌==◌, if◌then◌else◌, Answer, good, bad,
}
use opendrive_bridge.Common.Text.{Text, codes, text_eq, is_empty, has_prefix, trim_space, slash}
use opendrive_bridge.PathCache.{PathCache, invalidate_path}

-- A code point in front of the first segment.
abbrev pub onto : ℕ → List Text → List Text
onto c [] = (c ∷ []) ∷ []
onto c (t ∷ ts) = (c ∷ t) ∷ ts

-- `strings.Split(p, "/")`.
unfoldable pub split_slash : Text → List Text
split_slash [] = [] ∷ []
split_slash (c ∷ s) = let rest = split_slash s in if c == slash then [] ∷ rest else onto c rest

-- `strings.Join(segments, "/")`.
unfoldable pub join_slash : List Text → Text
join_slash [] = []
join_slash (t ∷ []) = t
join_slash (t ∷ u ∷ ts) = t ++ (slash ∷ join_slash (u ∷ ts))

abbrev pub dot : Text
dot = codes "."

abbrev pub dot_dot : Text
dot_dot = codes ".."

-- A segment that `path.Clean` keeps in a rooted path where no segment is `..`.
unfoldable pub is_kept : Text → Bool
unfolding text_eq
is_kept t = not (is_empty t) && not (text_eq t dot)

-- `path.Clean` of a rooted path where no segment is `..`.
unfoldable pub clean_rooted : Text → Text
unfolding split_slash join_slash is_kept
clean_rooted p = slash ∷ join_slash (filter is_kept (split_slash p))

-- What is wrong with a name, and with a path.
pub data NameError : Type 0 where
  name_empty name_dots name_too_long name_illegal name_blank name_control : NameError

pub data PathError : Type 0 where
  null_byte traversal empty_segment path_needed slash_needed tilde : PathError
  bad_segment : NameError → PathError

-- The bytes of a code point in UTF-8.
abbrev pub utf8_width : ℕ → ℕ
utf8_width c = if ltb c 0x80 then 1 else if ltb c 0x800 then 2 else if ltb c 0x10000 then 3 else 4

abbrev pub max_name_length : ℕ
max_name_length = 255

-- `IllegalNameChars`.
abbrev pub is_illegal : ℕ → Bool
is_illegal c = any (λ d. c == d) (codes "\\/:*?\"<>|")

abbrev pub is_control : ℕ → Bool
is_control c = ltb c 0x20 || c == 0x7f

-- `ValidateName`. A text of the model is valid UTF-8.
unfoldable pub validate_name : Text → Option NameError
unfolding trim_space text_eq
validate_name name =
    if is_empty name
    then some name_empty
    else if text_eq (trim_space name) dot || text_eq (trim_space name) dot_dot
    then some name_dots
    else if ltb max_name_length (sum_by utf8_width name)
    then some name_too_long
    else if any is_illegal name
    then some name_illegal
    else if is_empty (trim_space name)
    then some name_blank
    else if any is_control name
    then some name_control
    else none

-- The loop over the segments of the cleaned path.
unfoldable pub check_segments : List Text → Option PathError
unfolding validate_name
check_segments [] = none
check_segments (t ∷ ts) =
    if is_empty t
    then some empty_segment
    else elim (validate_name t) [ some e ↦ some (bad_segment e) | none ↦ check_segments ts ]

-- Every segment trimmed.
unfoldable pub trim_segments : Text → Text
unfolding split_slash join_slash trim_space
trim_segments p = join_slash (map trim_space (split_slash p))

abbrev pub root : Text
root = slash ∷ []

unfoldable pub has_dot_dot : Text → Bool
unfolding split_slash text_eq
has_dot_dot p = any (λ t. text_eq t dot_dot) (split_slash p)

-- A text behind its first slash: `strings.TrimPrefix(p, "/")`.
abbrev pub drop_slash : Text → Text
drop_slash [] = []
drop_slash (c ∷ s) = if c == slash then s else c ∷ s

unfoldable pub rooted : Text → Text
unfolding has_prefix
rooted p = if has_prefix p root then p else slash ∷ p

-- The checks of the cleaned path.
unfoldable pub check_clean : Text → Answer PathError Text
unfolding check_segments split_slash text_eq
check_clean q =
    if text_eq q root
    then good root
    else elim (check_segments (split_slash (drop_slash q))) [ some e ↦ bad e | none ↦ good q ]

-- `NormalizeFolderPath`.
unfoldable pub normalize_folder_path : Text → Answer PathError Text
unfolding trim_space text_eq rooted trim_segments has_dot_dot clean_rooted check_clean
normalize_folder_path p =
    if any (λ c. c == 0) p
    then bad null_byte
    else if is_empty (trim_space p) || text_eq p root || text_eq p dot
    then good root
    else (let t = trim_segments (rooted p) in
        if has_dot_dot t then bad traversal else check_clean (clean_rooted t))

-- The texts in front of the last slash and behind it.
unfoldable pub cut_last : Text → Option (Text × Text)
cut_last [] = none
cut_last (c ∷ s) = elim (cut_last s) [
  | some (d, t) ↦ some (c ∷ d, t)
  | none ↦ if c == slash then some ([], s) else none
]

abbrev pub parent_of : Text → Option (Text × Text) → Text × Text
parent_of p none = (root, drop_slash p)
parent_of p (some ([], t)) = (root, drop_slash p)
parent_of p (some (c ∷ d, t)) = (c ∷ d, t)

-- `ParentPath`: the parent of a normalised path and its last segment.
unfoldable pub parent_path : Text → Text × Text
unfolding text_eq cut_last
parent_path p = if text_eq p root || is_empty p then (root, []) else parent_of p (cut_last p)

-- `normalisePath` of the server.
unfoldable pub server_path : Text → Answer PathError Text
unfolding has_prefix trim_segments has_dot_dot clean_rooted
server_path p =
    if is_empty p
    then bad path_needed
    else if not (has_prefix p root)
    then bad slash_needed
    else (let t = trim_segments p in if has_dot_dot t then bad traversal else good (clean_rooted t))

-- `joinPath` of the server.
unfoldable pub join_path : Text → Text → Text
unfolding text_eq trim_space
join_path dir name =
    let t = trim_space name in if text_eq dir root then slash ∷ t else dir ++ (slash ∷ t)

-- `splitPath` of the server, on a path that it has normalised, where `path.Dir` and `path.Base` are the
-- parts around the last slash.
unfoldable pub split_path : Text → Text × Text
unfolding text_eq cut_last
split_path p = if text_eq p root then (root, []) else parent_of p (cut_last p)

-- `checkRemotePath`.
unfoldable pub check_remote_path : Text → Option PathError
unfolding has_prefix
check_remote_path p =
    if is_empty p
    then some path_needed
    else if has_prefix p (codes "~")
    then some tilde
    else if not (has_prefix p root)
    then some slash_needed
    else none

-- `invalidateSubtree` of the server, where there is a cache.
unfoldable pub invalidate_subtrees : List Text → PathCache → PathCache
unfolding invalidate_path split_path text_eq
invalidate_subtrees [] c = c
invalidate_subtrees (p ∷ ps) c =
    let parent = (split_path p).0 in
    let c' = invalidate_path p c in
    let c'' = if text_eq parent p then c' else invalidate_path parent c' in
    invalidate_subtrees ps (if is_empty p then c else c'')
