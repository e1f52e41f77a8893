-- ===== src/Keystore/Sealing.antt =====
-- Sealing and opening again (internal/keystore/envelope.go).
use mathlib.Core.List.{append-nil}
use opendrive_bridge.Common.{
  ℕ, zero, suc, ◌+◌, ◌-◌, ◌%◌, ◌≤◌, ◌<◌, ◌≡◌, refl, sym, ap, subst, ◌∙◌, true, false, not, ◌||◌,
  none, some, [], ◌∷◌, ◌++◌, arith, any, take, length, length-append, ltb, ◌==◌, ==_iff,
  if◌then◌else◌, inl, inr, Bool-cases,
}
use opendrive_bridge.Common.Text.{Text, has_prefix, is_empty}
use opendrive_bridge.Keystore.Envelope.{
  Bytes, Crypt, block_size, salt_len, magic, repeat, drop, pad, last_byte, unpad, wrap, seal,
  is_blank, strip_space, open_cipher, open_raw, open_sealed, Faithful,
}

take-append : (s t : Bytes) → take (length s) (s ++ t) ≡ s
take-append [] t = refl
take-append (c ∷ s) t = ap (λ x. c ∷ x) (take-append s t)

drop-append : (s t : Bytes) → drop (length s) (s ++ t) ≡ t
unfolding drop
drop-append [] t = refl
drop-append (c ∷ s) t = drop-append s t

take-drop : (n : ℕ) (s : Bytes) → take n s ++ drop n s ≡ s
unfolding drop
take-drop zero s = refl
take-drop (suc n) [] = refl
take-drop (suc n) (c ∷ s) = ap (λ x. c ∷ x) (take-drop n s)

length-repeat : (n b : ℕ) → length (repeat n b) ≡ n
unfolding repeat
length-repeat zero b = refl
length-repeat (suc n) b = omega (arith, length-repeat n b)

any-repeat : (n b : ℕ) → any (λ x. not (x == b)) (repeat n b) ≡ false
unfolding repeat
any-repeat zero b = refl
any-repeat (suc n) b = ground (arith, any-repeat n b)

last_byte-repeat : (n b : ℕ) → last_byte (repeat (suc n) b) ≡ b
unfolding repeat
last_byte-repeat zero b = refl
last_byte-repeat (suc n) b = last_byte-repeat n b

last_byte-append : (s t : Bytes) → is_empty t ≡ false → last_byte (s ++ t) ≡ last_byte t
last_byte-append s [] h = cc h
last_byte-append [] (b ∷ t) h = refl
last_byte-append (c ∷ []) (b ∷ t) h = refl
last_byte-append (c ∷ d ∷ s) (b ∷ t) h = last_byte-append (d ∷ s) (b ∷ t) h

-- A text with 1 to 16 bytes behind it that each hold their number.
unpad-padded :
    (s : Bytes) (n : ℕ) → suc n ≤ block_size → unpad (s ++ repeat (suc n) (suc n)) ≡ some s
unfolding unpad
unpad-padded s n h =
    let p = s ++ repeat (suc n) (suc n) in
    let last : last_byte p ≡ suc n =
      last_byte-append s (repeat (suc n) (suc n)) (unfold repeat in refl)
      ∙ last_byte-repeat n (suc n) in
    let size : length p ≡ length s + suc n =
      length-append s (repeat (suc n) (suc n))
      ∙ ap (λ x. length s + x) (length-repeat (suc n) (suc n)) in
    let front : length p - suc n ≡ length s = omega (arith, size) in
    rw last (
      rw front (
        rw (drop-append s (repeat (suc n) (suc n))) (
          rw (take-append s (repeat (suc n) (suc n)))
            (rw (any-repeat (suc n) (suc n)) (ground (arith, size, h))))))

-- Unpadding undoes padding.
pub unpad-pad : (s : Bytes) → unpad (pad s) ≡ some s
unfolding pad
unpad-pad s =
    let n = block_size - length s % block_size - 1 in
    let count : block_size - length s % block_size ≡ suc n = omega arith in
    rw count (unpad-padded s n (omega arith))

pad-whole_blocks : (s : Bytes) → length (pad s) % block_size ≡ 0
unfolding pad
pad-whole_blocks s =
    let n = block_size - length s % block_size in
    omega (arith, length-append s (repeat n n), length-repeat n n)

pad-pos : (s : Bytes) → 0 < length (pad s)
unfolding pad
pad-pos s =
    let n = block_size - length s % block_size in
    omega (arith, length-append s (repeat n n), length-repeat n n)

strip-solid : (s : Text) → any is_blank s ≡ false → strip_space s ≡ s
strip-solid [] h = refl
strip-solid (c ∷ s) h = ground (arith, strip-solid s)

filter-append : (s t : Text) → strip_space (s ++ t) ≡ strip_space s ++ strip_space t
filter-append [] t = refl
filter-append (c ∷ s) t = ground (arith, filter-append s t)

strip-wrap : (fuel : ℕ) (s : Text) → strip_space (wrap fuel s) ≡ strip_space s
unfolding wrap
strip-wrap zero s = filter-append s (10 ∷ []) ∙ append-nil (strip_space s)
strip-wrap (suc fuel) s = elim (Bool-cases (ltb 64 (length s))) [
  | inl e ↦ rw e (
      filter-append (take 64 s) (10 ∷ wrap fuel (drop 64 s))
      ∙ (ap (λ x. strip_space (take 64 s) ++ x) (strip-wrap fuel (drop 64 s))
          ∙ (sym (filter-append (take 64 s) (drop 64 s)) ∙ ap strip_space (take-drop 64 s))))
  | inr e ↦ rw e (filter-append s (10 ∷ []) ∙ append-nil (strip_space s))
]

has_prefix-append : (s t : Text) → has_prefix (s ++ t) s ≡ true
unfolding has_prefix
has_prefix-append [] t = refl
has_prefix-append (c ∷ s) t = ground (arith, has_prefix-append s t, ==_iff c c)

open_raw-sealed :
    (c : Crypt) (salt cipher : Bytes) (password : Text)
    → length salt ≡ salt_len
    → 0 < length cipher
    → length cipher % block_size ≡ 0
    → open_raw c password (some (magic ++ (salt ++ cipher)))
      ≡ unpad (c.decrypt (c.derive password salt) cipher)
unfolding open_raw open_cipher
open_raw-sealed c salt cipher password n pos whole =
    let front : take salt_len (salt ++ cipher) ≡ salt =
      subst (λ k. take k (salt ++ cipher) ≡ salt) n (take-append salt cipher) in
    let back : drop salt_len (salt ++ cipher) ≡ cipher =
      subst (λ k. drop k (salt ++ cipher) ≡ cipher) n (drop-append salt cipher) in
    let raw : Bytes = magic ++ (salt ++ cipher) in
    let passes : (ltb (length raw) (length magic + salt_len) || not (has_prefix raw magic))
        ≡ false =
      ground (arith, length-append salt cipher, n, has_prefix-append magic (salt ++ cipher)) in
    let whole_blocks : (length cipher == 0 || not (length cipher % block_size == 0)) ≡ false =
      ground (arith, pos, whole) in
    ap
      (λ b.
        if b
        then none
        else open_cipher c password (take salt_len (drop (length magic) raw))
            (drop (length magic + salt_len) raw))
      passes
    ∙ (ap (λ x. open_cipher c password x (drop (length magic + salt_len) raw)) front
        ∙ (ap (open_cipher c password salt) back
            ∙ ap (λ b. if b then none else unpad (c.decrypt (c.derive password salt) cipher))
                whole_blocks))

-- Opening what was sealed with the same password gives the text back.
pub open-seal :
    (c : Crypt)
    → Faithful c
    → (salt plain : Bytes) (password : Text) → length salt ≡ salt_len
    → open_sealed c (seal c salt plain password) password ≡ some plain
unfolding open_sealed seal
open-seal c f salt plain password n =
    let k = c.derive password salt in
    let cipher = c.encrypt k (pad plain) in
    let raw : Bytes = magic ++ (salt ++ cipher) in
    let encoded : Text = c.encode raw in
    let size : length cipher ≡ length (pad plain) = f.same_length k (pad plain) in
    let bare : strip_space (wrap (length encoded) encoded) ≡ encoded =
      strip-wrap (length encoded) encoded ∙ strip-solid encoded (f.no_blank raw) in
    ap (λ x. open_raw c password (c.decode x)) bare
    ∙ (ap (open_raw c password) (f.decode_encode raw)
        ∙ (open_raw-sealed c salt cipher password n (omega (arith, size, pad-pos plain))
              (ap (λ x. x % block_size) size ∙ pad-whole_blocks plain)
            ∙ (ap unpad (f.decrypt_encrypt k (pad plain) (pad-whole_blocks plain))
                ∙ unpad-pad plain)))
