-- ===== src/Jobs/Backoff.antt =====
-- The delay between two attempts of a job (`backoff` of internal/jobs/engine.go), in nanoseconds.
use native.Mathlib.Nat.{pow-suc, mul_assoc, mul-mod_right}
use opendrive_bridge.Common.{
  ℕ, zero, suc, ◌+◌, ◌-◌, ◌*◌, ◌%◌, ◌^◌, ◌≤◌, ◌<◌, ◌≡◌, refl, sym, ap, ◌∙◌, Bool, true, false, ◌&&◌,
  ◌||◌, arith, ltb, leb, ◌==◌, ==_iff, if◌then◌else◌, inl, inr, Bool-cases,
}

abbrev pub second : ℕ
second = 1000000000

abbrev pub minute : ℕ
minute = 60000000000

-- `time.Second << (attempt - 1)` on 64 bits with a sign, or a minute where that is above it or not
-- above 0.
unfoldable pub engine_backoff : ℕ → ℕ
engine_backoff attempt =
    let d = second * 2 ^ (attempt - 1) % 2 ^ 64 in
    if ltb minute d || leb (2 ^ 63) d || d == 0 then minute else d

-- Whether the shift by so many places and six more is above a minute, or has lost its sense.
unfoldable is_lost : ℕ → Bool
is_lost n = let d = second * 2 ^ (n + 6) % 2 ^ 64 in ltb minute d || leb (2 ^ 63) d || d == 0

abbrev all_lost : ℕ → Bool
all_lost zero = true
all_lost (suc n) = is_lost n && all_lost n

-- The shifts that keep a bit of the second.
all_lost-49 : all_lost 49 ≡ true
unfolding is_lost
all_lost-49 = refl

lost_below : (k n : ℕ) → n < k → all_lost k ≡ true → is_lost n ≡ true
lost_below zero n h c = absurd (omega (arith, h))
lost_below (suc k) n h c = elim (Bool-cases (n == k)) [
  | inl e ↦ ap is_lost ((==_iff n k).0 e) ∙ ground (arith, c)
  | inr e ↦ lost_below k n (ground (arith, h, e)) (ground (arith, c))
]

-- The others lose every bit.
pow_add : (m k : ℕ) → 2 ^ (m + k) ≡ 2 ^ m * 2 ^ k
pow_add m zero =
    let same : m + 0 ≡ m = omega arith in
    let one_time : 2 ^ m * 1 ≡ 2 ^ m = omega arith in ap (λ x. 2 ^ x) same ∙ sym one_time
pow_add m (suc k) =
    let next : m + suc k ≡ suc (m + k) = omega arith in
    ap (λ x. 2 ^ x) next
    ∙ (pow-suc 2 (m + k)
        ∙ (ap (λ x. x * 2) (pow_add m k)
            ∙ (mul_assoc (2 ^ m) (2 ^ k) 2 ∙ ap (λ x. 2 ^ m * x) (sym (pow-suc 2 k)))))

shifted_out : (m : ℕ) → second * 2 ^ (m + 55) % 2 ^ 64 ≡ 0
shifted_out m =
    ap (λ x. second * x % 2 ^ 64) (pow_add m 55)
    ∙ (ap (λ x. x % 2 ^ 64) (regroup (2 ^ m)) ∙ mul-mod_right (2 ^ 64) (1953125 * 2 ^ m))
  where
    regroup : (x : ℕ) → second * (x * 2 ^ 55) ≡ 2 ^ 64 * (1953125 * x)
    regroup x = omega arith

lost : (n : ℕ) → is_lost n ≡ true
lost n = elim (Bool-cases (ltb n 49)) [
  | inl h ↦ lost_below 49 n (ground (arith, h)) all_lost-49
  | inr h ↦
      let at : second * 2 ^ (n + 6) % 2 ^ 64 ≡ 0 =
        ap (λ x. second * 2 ^ x % 2 ^ 64) (far n (ground (arith, h))) ∙ shifted_out (n - 49) in
      unfold is_lost in rw at refl
]
  where
    far : (n : ℕ) → 49 ≤ n → n + 6 ≡ (n - 49) + 55
    far n h = omega (arith, h)

-- The delay before the next attempt is a second, doubled with each attempt, up to a minute from the
-- seventh attempt on, whatever the number of attempts: the overflow of the shift never shows.
pub engine_backoff-doubles :
    (a : ℕ) → engine_backoff (a + 1) ≡ (if ltb a 6 then second * 2 ^ a else minute)
unfolding engine_backoff
engine_backoff-doubles zero = refl
engine_backoff-doubles (suc zero) = refl
engine_backoff-doubles (suc (suc zero)) = refl
engine_backoff-doubles (suc (suc (suc zero))) = refl
engine_backoff-doubles (suc (suc (suc (suc zero)))) = refl
engine_backoff-doubles (suc (suc (suc (suc (suc zero))))) = refl
engine_backoff-doubles (suc (suc (suc (suc (suc (suc n)))))) =
    let a = suc (suc (suc (suc (suc (suc n))))) in
    let places : a + 1 - 1 ≡ n + 6 = omega arith in
    let small : ltb a 6 ≡ false = ground arith in
    let d = second * 2 ^ (n + 6) % 2 ^ 64 in
    let gone : (ltb minute d || leb (2 ^ 63) d || d == 0) ≡ true = unfold is_lost in lost n in
    ap
      (λ x.
        let d = second * 2 ^ x % 2 ^ 64 in
        if ltb minute d || leb (2 ^ 63) d || d == 0 then minute else d)
      places
    ∙ (ap (λ b. if b then minute else second * 2 ^ (n + 6) % 2 ^ 64) gone
        ∙ sym (ap (λ b. if b then second * 2 ^ a else minute) small))
