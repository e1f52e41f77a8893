-- ===== src/Keystore/RoundTrip.antt =====
-- Writing the fields of the credential file and reading them back (internal/keystore/env.go).
use opendrive_bridge.Common.{
  ℕ, ◌≡◌, refl, sym, ap, ◌∙◌, Bool, true, false, not, ◌&&◌, ◌||◌, some, List, [], ◌∷◌, ◌++◌, arith,
  ◌==◌, ==_iff, leb, any, All, if◌then◌else◌, inl, inr, Bool-cases,
}
use opendrive_bridge.Common.Text.{
  Text, text_eq, text_eq_iff, text_before, is_empty, is_space, has_prefix, trim_right, trim_space,
}
use opendrive_bridge.Common.Dict.{
  Dict, find, insert, keys, find-insert, listed, listed-keys, keys-All,
}
use opendrive_bridge.Common.Sort.{sort_by, sort_by-All, any-sort_by}
use opendrive_bridge.Keystore.Env.{
  replace_char, backslash, quote, equals, line_end, escape_quoted, is_special, needs_quote, written,
  value_of, render_fields, render_env, split_lines, cut, before_last, enclosed, read_value,
  read_cut, export_word, read_assignment, read_lines, parse_env,
}
use opendrive_bridge.Keystore.Quoting.{unescape-escape}
use opendrive_bridge.Keystore.Trimming.{
  trim_right-append, trim_right-solid, trim_space-fixed, trim_space-solid,
}

abbrev pub is_name_char : ℕ → Bool
is_name_char c = leb b'A' c && leb c b'Z' || c == b'_'

-- A name as the package has them: capital letters and underscores.
abbrev pub IsName : Text → Type 0
IsName k = (is_empty k ≡ false) × (any (λ c. not (is_name_char c)) k ≡ false)

-- A value that the format can hold: it is not empty and has no line end in it.
abbrev pub IsValue : Text → Type 0
IsValue v = (is_empty v ≡ false) × (any (λ c. c == line_end) v ≡ false)

name_char-solid : (c : ℕ) → is_name_char c ≡ true → is_space c ≡ false
unfolding is_space
name_char-solid c h = ground arith

cut-name :
    (k w : Text)
    → any (λ c. not (is_name_char c)) k ≡ false
    → cut equals (k ++ equals ∷ w) ≡ some (k, w)
unfolding cut
cut-name [] w h = refl
cut-name (c ∷ k) w h = ground (arith, cut-name k w)

trim_right-name : (k : Text) → any (λ c. not (is_name_char c)) k ≡ false → trim_right k ≡ k
unfolding trim_right
trim_right-name [] h = refl
trim_right-name (c ∷ k) h = ground (arith, trim_right-name k, name_char-solid c)

trim_space-name : (k : Text) → IsName k → trim_space k ≡ k
trim_space-name [] h = absurd (cc (h.0))
trim_space-name (c ∷ k) h =
    trim_space-solid c k (ground (arith, name_char-solid c, h.1)) (trim_right-name (c ∷ k) h.1)

any_append : (p : ℕ → Bool) (s t : Text) → any p (s ++ t) ≡ (any p s || any p t)
any_append p [] t = refl
any_append p (c ∷ s) t = ground (arith, any_append p s t)

replace_char-line_end :
    (c a b : ℕ) (s : Text)
    → (a == line_end) ≡ false
    → (b == line_end) ≡ false
    → any (λ x. x == line_end) s ≡ false
    → any (λ x. x == line_end) (replace_char c a b s) ≡ false
unfolding replace_char
replace_char-line_end c a b [] h k n = refl
replace_char-line_end c a b (x ∷ s) h k n = ground (arith, replace_char-line_end c a b s)

escape-line_end :
    (v : Text)
    → any (λ x. x == line_end) v ≡ false
    → any (λ x. x == line_end) (escape_quoted v) ≡ false
unfolding escape_quoted
escape-line_end v h =
    replace_char-line_end quote backslash quote (replace_char backslash backslash backslash v) refl
      refl (replace_char-line_end backslash backslash backslash v refl refl h)

before_last-end : (q : ℕ) (s : Text) → before_last q (s ++ (q ∷ [])) ≡ some s
unfolding before_last
before_last-end q [] = ground (arith, ==_iff q q)
before_last-end q (c ∷ []) = ground (arith, before_last-end q [])
before_last-end q (c ∷ d ∷ s) = ground (arith, before_last-end q (d ∷ s))

-- A written value stands up to trimming, stays on its line, and is read back.
pub record Legible (v : Text) : Type 0 where
  pub trimmed : trim_space (written v) ≡ written v
  pub end_kept : trim_right (written v) ≡ written v
  pub one_line : any (λ c. c == line_end) (written v) ≡ false
  pub read_back : read_value (written v) ≡ v

quoted-end : (e : Text) → trim_right (quote ∷ (e ++ (quote ∷ []))) ≡ quote ∷ (e ++ (quote ∷ []))
unfolding trim_right is_space
quoted-end e = trim_right-append (quote ∷ e) (quote ∷ []) refl

enclosed-quoted : (e : Text) → enclosed quote (quote ∷ (e ++ (quote ∷ []))) ≡ some e
unfolding enclosed
enclosed-quoted e = before_last-end quote e

read-quoted : (v : Text) → read_value (quote ∷ (escape_quoted v ++ (quote ∷ []))) ≡ v
unfolding read_value
read-quoted v = rw (enclosed-quoted (escape_quoted v), read_value) (unescape-escape v)

quoted-Legible :
    (v : Text)
    → any (λ c. c == line_end) v ≡ false
    → written v ≡ quote ∷ (escape_quoted v ++ (quote ∷ []))
    → Legible v
unfolding is_space
quoted-Legible v h w = record {
  trimmed = rw w (
      trim_space-solid quote (escape_quoted v ++ (quote ∷ [])) refl (quoted-end (escape_quoted v)));
  end_kept = rw w (quoted-end (escape_quoted v));
  one_line = rw w (
      ground (
        arith,
        any_append (λ c. c == line_end) (escape_quoted v) (quote ∷ []),
        escape-line_end v h,
      ));
  read_back = rw w (read-quoted v);
}

read-plain : (c : ℕ) (s : Text) → any is_special (c ∷ s) ≡ false → read_value (c ∷ s) ≡ c ∷ s
unfolding read_value enclosed
read-plain c s h = ground arith

plain-Legible : (v : Text) → IsValue v → needs_quote v ≡ false → written v ≡ v → Legible v
unfolding needs_quote
plain-Legible [] h n w = absurd (cc (h.0))
plain-Legible (c ∷ s) h n w =
    let v : Text = c ∷ s in
    let same : trim_space v ≡ v = sym ((text_eq_iff v (trim_space v)).0 (ground (arith, n))) in
    let special : any is_special v ≡ false = ground (arith, n) in
    let (solid, end) = trim_space-fixed c s same in
    record {
      trimmed = rw w same;
      end_kept = rw w end;
      one_line = rw w h.1;
      read_back = rw w (read-plain c s special);
    }

written-Legible : (v : Text) → IsValue v → Legible v
unfolding written
written-Legible v h = elim (Bool-cases (needs_quote v)) [
  | inl e ↦ quoted-Legible v h.1 (rw (e, written) refl)
  | inr e ↦ plain-Legible v h e (rw (e, written) refl)
]

-- A rendered line stands up to trimming, and sets its field.
line-trimmed :
    (k v : Text)
    → IsName k
    → IsValue v
    → trim_space (k ++ equals ∷ written v) ≡ k ++ equals ∷ written v
unfolding is_space
line-trimmed [] v n h = absurd (cc (n.0))
line-trimmed (c ∷ k) v n h =
    let end : trim_right (equals ∷ written v) ≡ equals ∷ written v =
      trim_right-solid equals (written v) refl
      ∙ ap (λ x. equals ∷ x) ((written-Legible v h).end_kept) in
    trim_space-solid c (k ++ equals ∷ written v) (ground (arith, name_char-solid c, n.1)) (
      trim_right-append (c ∷ k) (equals ∷ written v) (ap is_empty end) ∙ ap (λ x. (c ∷ k) ++ x) end)

read_cut-field : (k v : Text) → IsName k → IsValue v → read_cut (some (k, written v)) ≡ some (k, v)
unfolding read_cut
read_cut-field k v n h =
    let l = written-Legible v h in
    rw (trim_space-name k n) (rw (l.trimmed) (rw (l.read_back) (rw (n.0) (rw (h.0) refl))))

name-starts :
    (c : ℕ) (s : Text)
    → is_name_char c ≡ true
    → (has_prefix (c ∷ s) (35 ∷ []) ≡ false) × (has_prefix (c ∷ s) export_word ≡ false)
unfolding has_prefix
name-starts c s h = (ground arith, ground arith)

read_assignment-line :
    (k v : Text) → IsName k → IsValue v → read_assignment (k ++ equals ∷ written v) ≡ some (k, v)
unfolding read_assignment
read_assignment-line [] v n h = absurd (cc (n.0))
read_assignment-line (c ∷ k) v n h =
    let (plain, unmarked) = name-starts c (k ++ equals ∷ written v) (ground (arith, n.1)) in
    rw plain
      (rw unmarked (ap read_cut (cut-name (c ∷ k) (written v) n.1) ∙ read_cut-field (c ∷ k) v n h))

split_lines-line :
    (l rest : Text)
    → any (λ c. c == line_end) l ≡ false
    → split_lines (l ++ line_end ∷ rest) ≡ l ∷ split_lines rest
unfolding split_lines
split_lines-line [] rest h = refl
split_lines-line (c ∷ l) rest h = ground (arith, split_lines-line l rest)

name-line_end :
    (k : Text) → any (λ c. not (is_name_char c)) k ≡ false → any (λ c. c == line_end) k ≡ false
name-line_end [] h = refl
name-line_end (c ∷ k) h = ground (arith, name-line_end k)

line-line_end :
    (k v : Text) → IsName k → IsValue v → any (λ c. c == line_end) (k ++ equals ∷ written v) ≡ false
line-line_end k v n h = ground (
  arith,
  any_append (λ c. c == line_end) k (equals ∷ written v),
  name-line_end k n.1,
  (written-Legible v h).one_line,
)

-- A field that the format can hold.
abbrev Holds : Dict Text → Text → Type 0
Holds m k = IsName k × ((v : Text) × (find k m ≡ some v) × IsValue v)

value_of-found : (k : Text) (m : Dict Text) (v : Text) → find k m ≡ some v → value_of k m ≡ v
value_of-found k m v f = rw (f, value_of) refl

read_lines-set :
    (l : Text) (ls : List Text) (out : Dict Text) (k v : Text)
    → read_assignment (trim_space l) ≡ some (k, v)
    → read_lines (l ∷ ls) out ≡ read_lines ls (insert k v out)
unfolding read_lines
read_lines-set l ls out k v h = rw (h, read_lines) refl

find-read_fields :
    (ks : List Text) (m out : Dict Text) (q : Text)
    → All (Holds m) ks
    → find q (read_lines (split_lines (render_fields ks m)) out)
      ≡ (if listed q ks then find q m else find q out)
unfolding render_fields read_lines
find-read_fields [] m out q hs = unfold split_lines read_assignment trim_space in refl
find-read_fields (k ∷ ks) m out q ((n, (v, f, h)), hs) =
    let line = k ++ equals ∷ written v in
    let rest = render_fields ks m in
    let here : read_lines (split_lines (line ++ line_end ∷ rest)) out
        ≡ read_lines (split_lines rest) (insert k v out) =
      ap (λ ls. read_lines ls out) (split_lines-line line rest (line-line_end k v n h))
      ∙ read_lines-set line (split_lines rest) out k v
          (ap read_assignment (line-trimmed k v n h) ∙ read_assignment-line k v n h) in
    ap (λ w. find q (read_lines (split_lines ((k ++ equals ∷ written w) ++ line_end ∷ rest)) out))
      (value_of-found k m v f)
    ∙ (ap (find q) here ∙ (find-read_fields ks m (insert k v out) q hs ∙ chosen))
  where
    chosen :
        (if listed q ks then find q m else find q (insert k v out))
        ≡ (if listed q (k ∷ ks) then find q m else find q out)
    chosen = ground (arith, find-insert k q v out, text_eq_iff k q, f)

-- The fields that are written are the fields that are read: names of capital letters and
-- underscores, and values that are not empty and hold no line end, whatever else they hold.
pub parse-render :
    (m : Dict Text)
    → ((k v : Text) → find k m ≡ some v → IsName k × IsValue v)
    → (q : Text) → find q (parse_env (render_env m)) ≡ find q m
unfolding parse_env render_env find
parse-render m h q =
    find-read_fields (sort_by text_before (keys m)) m [] q (
      sort_by-All (Holds m) text_before (keys m)
        (keys-All m (λ k v f. let (n, w) = h k v f in (n, (v, f, w)))))
    ∙ ground (arith, any-sort_by (λ p. text_eq p q) text_before (keys m), listed-keys q m)
