-- ===== src/Keystore/Envelope.antt =====
-- The armoured form of the credentials (internal/keystore/envelope.go): OpenSSL's header and salt in
-- front of a block cipher's output, in base64 with a line end after every 64 characters.
use opendrive_bridge.Common.{
  ℕ, zero, suc, ◌+◌, ◌-◌, ◌%◌, ◌≡◌, Bool, false, not, ◌||◌, Option, none, some, List, [], ◌∷◌, ◌++◌,
  any, filter, take, length, ltb, ◌==◌, if◌then◌else◌,
}
use opendrive_bridge.Common.Text.{Text, codes, has_prefix}

abbrev pub Bytes : Type 0
Bytes = List ℕ

-- What the package takes from the Go library: the derivation of key and vector, one call of the
-- cipher in each direction on a text of whole blocks, and base64.
pub record Crypt : Type 0 where
  pub derive : Text → Bytes → Bytes × Bytes
  pub encrypt : Bytes × Bytes → Bytes → Bytes
  pub decrypt : Bytes × Bytes → Bytes → Bytes
  pub encode : Bytes → Text
  pub decode : Text → Option Bytes

abbrev pub block_size : ℕ
block_size = 16

abbrev pub salt_len : ℕ
salt_len = 8

abbrev pub magic : Bytes
magic = codes "Salted__"

unfoldable pub repeat : ℕ → ℕ → Bytes
repeat zero b = []
repeat (suc n) b = b ∷ repeat n b

unfoldable pub drop : ℕ → Bytes → Bytes
drop zero s = s
drop (suc n) [] = []
drop (suc n) (c ∷ s) = drop n s

-- `pkcs7Pad` with the cipher's block size.
unfoldable pub pad : Bytes → Bytes
unfolding repeat
pad s = let n = block_size - length s % block_size in s ++ repeat n n

abbrev pub last_byte : Bytes → ℕ
last_byte [] = 0
last_byte (c ∷ []) = c
last_byte (c ∷ d ∷ s) = last_byte (d ∷ s)

-- `pkcs7Unpad`.
unfoldable pub unpad : Bytes → Option Bytes
unfolding drop
unpad s =
    let n = last_byte s in
    if n == 0 || ltb block_size n || ltb (length s) n
    then none
    else if any (λ b. not (b == n)) (drop (length s - n) s)
    then none
    else some (take (length s - n) s)

-- The lines of `seal`. Every round that goes on takes 64 characters away.
unfoldable pub wrap : ℕ → Text → Text
unfolding drop
wrap zero s = s ++ (10 ∷ [])
wrap (suc fuel) s =
    let rest = wrap fuel (drop 64 s) in
    if ltb 64 (length s) then take 64 s ++ 10 ∷ rest else s ++ (10 ∷ [])

-- `seal` with the salt that it drew.
unfoldable pub seal : Crypt → Bytes → Bytes → Text → Text
unfolding pad wrap
seal c salt plain password =
    let raw = magic ++ (salt ++ c.encrypt (c.derive password salt) (pad plain)) in
    let encoded = c.encode raw in wrap (length encoded) encoded

abbrev pub is_blank : ℕ → Bool
is_blank r = r == 10 || r == 13 || r == 32 || r == 9

-- `stripSpace`.
abbrev pub strip_space : Text → Text
strip_space s = filter (λ r. not (is_blank r)) s

-- `open` behind the checks of the header.
unfoldable pub open_cipher : Crypt → Text → Bytes → Bytes → Option Bytes
unfolding unpad
open_cipher c password salt cipher =
    if length cipher == 0 || not (length cipher % block_size == 0)
    then none
    else unpad (c.decrypt (c.derive password salt) cipher)

-- `open` behind the decoding, with one answer for every failure.
unfoldable pub open_raw : Crypt → Text → Option Bytes → Option Bytes
unfolding open_cipher has_prefix drop
open_raw c password none = none
open_raw c password (some raw) =
    if ltb (length raw) (length magic + salt_len) || not (has_prefix raw magic)
    then none
    else open_cipher c password (take salt_len (drop (length magic) raw))
        (drop (length magic + salt_len) raw)

-- `open`.
unfoldable pub open_sealed : Crypt → Text → Text → Option Bytes
unfolding open_raw
open_sealed c armoured password = open_raw c password (c.decode (strip_space armoured))

-- `isEncrypted`.
unfoldable pub is_encrypted : Crypt → Text → Bool
unfolding has_prefix
is_encrypted c content = elim (c.decode (strip_space content)) [
  | none ↦ false
  | some raw ↦ has_prefix raw magic
]

-- What the Go library promises of its parts: decoding undoes encoding, which writes no blank; and
-- deciphering undoes enciphering on whole blocks, which keeps their length.
pub record Faithful (c : Crypt) : Type 0 where
  pub decode_encode : (raw : Bytes) → c.decode (c.encode raw) ≡ some raw
  pub no_blank : (raw : Bytes) → any is_blank (c.encode raw) ≡ false
  pub decrypt_encrypt :
      (k : Bytes × Bytes) (s : Bytes) → length s % block_size ≡ 0 → c.decrypt k (c.encrypt k s) ≡ s
  pub same_length : (k : Bytes × Bytes) (s : Bytes) → length (c.encrypt k s) ≡ length s
