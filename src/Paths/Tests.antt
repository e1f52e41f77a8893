-- ===== src/Paths/Tests.antt =====
-- Paths at concrete inputs.
use opendrive_bridge.Common.{ℕ, ◌+◌, none, ◌≡◌, refl, true, some, good, bad}
use opendrive_bridge.Common.Text.{
  Text, codes, text_eq, has_prefix, is_space, trim_left, trim_right, trim_space,
}
use opendrive_bridge.Sdk.Errors.{ApiError, not_found}
use opendrive_bridge.Sdk.Call.{network_error}
use opendrive_bridge.Paths.{
  split_slash, join_slash, is_kept, clean_rooted, validate_name, check_segments, trim_segments,
  root, has_dot_dot, rooted, check_clean, normalize_folder_path, cut_last, parent_path, server_path,
  join_path, check_remote_path, traversal, tilde, bad_segment, name_illegal,
}
use opendrive_bridge.Paths.Canonical.{IsCanonical}
use opendrive_bridge.Paths.Agreement.{server_path-IsCanonical, normalize-server_path}
use opendrive_bridge.Paths.Repeating.{normalize_idem}
use opendrive_bridge.Paths.Resolving.{
  FolderCalls, World, Found, remember, look_up, resolve_clean, resolve_path, forget_children,
  created, create_folder, made_folder, below_parent, ensure_loop, ensure_path,
}
use opendrive_bridge.Paths.Ensured.{ensure_path-ends}

abbrev messy : Text
messy = codes "/ Docs //./ a b /"

abbrev tidy : Text
tidy = codes "/Docs/a b"

messy_tidied : normalize_folder_path messy ≡ good tidy
unfolding normalize_folder_path rooted trim_segments has_dot_dot clean_rooted check_clean
    check_segments validate_name is_kept split_slash join_slash trim_space trim_left trim_right
    is_space text_eq has_prefix
messy_tidied = refl

-- Spaces around two dots do not hide them.
hidden_traversal : normalize_folder_path (codes "a/ .. /b") ≡ bad traversal
unfolding normalize_folder_path rooted trim_segments has_dot_dot split_slash join_slash trim_space
    trim_left trim_right is_space text_eq has_prefix
hidden_traversal = refl

colon_refused : normalize_folder_path (codes "/a/b:c") ≡ bad (bad_segment name_illegal)
unfolding normalize_folder_path rooted trim_segments has_dot_dot clean_rooted check_clean
    check_segments validate_name is_kept split_slash join_slash trim_space trim_left trim_right
    is_space text_eq has_prefix
colon_refused = refl

messy_served : server_path messy ≡ good tidy
unfolding server_path trim_segments has_dot_dot clean_rooted is_kept split_slash join_slash
    trim_space trim_left trim_right is_space text_eq has_prefix
messy_served = refl

parent_of_tidy : parent_path tidy ≡ (codes "/Docs", codes "a b")
unfolding parent_path cut_last text_eq
parent_of_tidy = refl

child_of_docs : join_path (codes "/Docs") (codes " a b ") ≡ tidy
unfolding join_path text_eq trim_space trim_left trim_right is_space
child_of_docs = refl

home_refused : check_remote_path (codes "~/a") ≡ some tilde
unfolding check_remote_path has_prefix
home_refused = refl

server_path-IsCanonical_example : IsCanonical tidy × (server_path tidy ≡ good tidy)
server_path-IsCanonical_example = server_path-IsCanonical messy tidy messy_served

normalize-server_path_example :
    IsCanonical tidy
    × (server_path tidy ≡ good tidy)
    × (has_prefix messy root ≡ true → server_path messy ≡ good tidy)
normalize-server_path_example = normalize-server_path messy tidy messy_tidied

normalize_idem_example : normalize_folder_path tidy ≡ good tidy
normalize_idem_example = normalize_idem messy tidy messy_tidied

abbrev nothing_at : Text → ApiError
nothing_at path = record (network_error (codes "POST") path) { kind = not_found }

abbrev nowhere : World ℕ
nowhere = record { up = 0; cache = none }

-- A drive without folders, which makes any.
abbrev empty_drive : FolderCalls ℕ
empty_drive = record {
  id_by_path = λ n path. (n, bad (nothing_at path));
  create = λ n name parent. (n + 1, good (codes "f"));
}

ensure_path-ends_example :
    (x : Found empty_drive 0) × (ensure_path empty_drive 0 nowhere messy ≡ some x)
ensure_path-ends_example = ensure_path-ends empty_drive 0 nowhere messy

-- Two missing folders are made, one below the other.
two_made :
    ensure_path empty_drive 0 nowhere (codes "/a/b")
    ≡ some (record { up = 2; cache = none }, good (codes "f"))
unfolding ensure_path ensure_loop resolve_path resolve_clean remember look_up create_folder created
    forget_children made_folder below_parent normalize_folder_path rooted trim_segments has_dot_dot
    clean_rooted check_clean check_segments validate_name is_kept split_slash join_slash trim_space
    trim_left trim_right is_space text_eq has_prefix parent_path cut_last
two_made = refl
