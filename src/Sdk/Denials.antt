-- ===== src/Sdk/Denials.antt =====
-- The memory of refusals (pkg/opendrive/classify.go): `markDenied` and `noteSuccess` in any order.
use opendrive_bridge.Common.{
  ℕ, ◌+◌, ◌≤◌, ◌<◌, ◌≡◌, refl, sym, ap, ◌∙◌, true, false, ◌||◌, none, some, List, [], ◌∷◌, arith,
  length, ltb, All, inl, inr, Bool-cases,
}
use opendrive_bridge.Common.Text.{Text, text_eq, text_eq_iff}
use opendrive_bridge.Common.Dict.{
  Dict, find, insert, delete, find-insert, find-delete, find-insert_self,
}
use opendrive_bridge.Sdk.Resolve.{
  Disambiguator, max_witnessed, is_recent, is_noted, mark_denied, note_success,
}

-- A refused call that asks for a confirming attempt at a time, and a call that succeeded.
pub data Event : Type 0 where
  refused : Text → ℕ → Event
  succeeded : Text → Event

unfoldable pub run_events : List Event → Disambiguator → Disambiguator
unfolding mark_denied note_success
run_events [] d = d
run_events (refused j t ∷ es) d = run_events es (mark_denied d j t).0
run_events (succeeded j ∷ es) d = run_events es (note_success d j)

-- No success of the key, and its refusals between two times.
abbrev pub Between : Text → ℕ → ℕ → Event → Type 0
Between k t u (refused j s) = (t ≤ s) × (s < u)
Between k t u (succeeded j) = text_eq j k ≡ false

-- The key's refusal is remembered from a time.
abbrev Remembers : Text → ℕ → ℕ → Disambiguator → Type 0
Remembers k t n d = (find k d.denied ≡ some t) × (d.interval ≡ n)

mark_denied-Remembers :
    (k j : Text) (t s n : ℕ) (d : Disambiguator)
    → t ≤ s
    → s < t + n
    → Remembers k t n d
    → Remembers k t n (mark_denied d j s).0
unfolding mark_denied
mark_denied-Remembers k j t s n d h u r = elim (Bool-cases (text_eq j k)) [
  | inl e ↦
      let same : j ≡ k = (text_eq_iff j k).0 e in
      let now : is_recent (find j d.denied) s d.interval ≡ true =
        ap (λ x. is_recent (find x d.denied) s d.interval) same
        ∙ rw (r.0) (ground (arith, r.1, h, u)) in
      rw now r
  | inr e ↦ elim (Bool-cases (is_recent (find j d.denied) s d.interval)) [
    | inl b ↦ rw b r
    | inr b ↦
        elim (Bool-cases (ltb (length d.denied) max_witnessed || is_noted (find j d.denied))) [
          | inl c ↦ rw b (rw c (find-insert j k s d.denied ∙ rw e (r.0), r.1))
          | inr c ↦ rw b (rw c r)
        ]
  ]
]

note_success-Remembers :
    (k j : Text) (t n : ℕ) (d : Disambiguator)
    → text_eq j k ≡ false
    → Remembers k t n d
    → Remembers k t n (note_success d j)
unfolding note_success
note_success-Remembers k j t n d e r =
    let kept : find k (delete j d.denied) ≡ some t = find-delete j k d.denied ∙ rw e (r.0) in
    (ground (arith, kept, r.0), ground (arith, r.1))

run_events-Remembers :
    (es : List Event) (k : Text) (t n : ℕ) (d : Disambiguator)
    → All (Between k t (t + n)) es
    → Remembers k t n d
    → Remembers k t n (run_events es d)
unfolding run_events
run_events-Remembers [] k t n d hs r = r
run_events-Remembers (refused j s ∷ es) k t n d ((h, u), hs) r =
    run_events-Remembers es k t n (mark_denied d j s).0 hs (mark_denied-Remembers k j t s n d h u r)
run_events-Remembers (succeeded j ∷ es) k t n d (e, hs) r =
    run_events-Remembers es k t n (note_success d j) hs (note_success-Remembers k j t n d e r)

mark_denied-first :
    (d : Disambiguator) (k : Text) (t : ℕ)
    → length d.denied < max_witnessed
    → (mark_denied d k t).1 ≡ true
    → Remembers k t d.interval (mark_denied d k t).0
unfolding mark_denied
mark_denied-first d k t room granted =
    elim (Bool-cases (is_recent (find k d.denied) t d.interval)) [
      | inl b ↦ absurd (ground (arith, b, granted))
      | inr b ↦
          let roomy : ltb (length d.denied) max_witnessed ≡ true = ground (arith, room) in
          rw b (rw roomy (find-insert_self k t d.denied, refl))
    ]

mark_denied-recent :
    (d : Disambiguator) (k : Text) (t n u : ℕ)
    → Remembers k t n d
    → t ≤ u
    → u < t + n
    → (mark_denied d k u).1 ≡ false
unfolding mark_denied
mark_denied-recent d k t n u r h w =
    let recent : is_recent (find k d.denied) u d.interval ≡ true =
      rw (r.0) (ground (arith, r.1, h, w)) in
    rw recent refl

-- Where there is room to remember it, a refusal is granted one confirming attempt within an interval:
-- until the interval has passed or the call has succeeded, the next refusal of the same key is final,
-- whatever else is refused and succeeds in between.
pub confirmed_once :
    (d : Disambiguator) (k : Text) (t : ℕ) (es : List Event) (u : ℕ)
    → length d.denied < max_witnessed
    → (mark_denied d k t).1 ≡ true
    → All (Between k t (t + d.interval)) es
    → t ≤ u
    → u < t + d.interval
    → (mark_denied (run_events es (mark_denied d k t).0) k u).1 ≡ false
confirmed_once d k t es u room granted hs h w =
    let first = mark_denied-first d k t room granted in
    mark_denied-recent (run_events es (mark_denied d k t).0) k t d.interval u
      (run_events-Remembers es k t d.interval (mark_denied d k t).0 hs first) h w

abbrev IsRefusal : Event → Type 0
IsRefusal (refused j t) = Unit
IsRefusal (succeeded j) = ⊥

-- The memory is full and does not hold the key.
abbrev IsFullWithout : Text → Disambiguator → Type 0
IsFullWithout k d = (max_witnessed ≤ length d.denied) × (find k d.denied ≡ none)

length-insert : (k : Text) (t : ℕ) (m : Dict ℕ) → length m ≤ length (insert k t m)
unfolding insert
length-insert k t [] = omega arith
length-insert k t ((j, s) ∷ m) = ground (arith, length-insert k t m)

known_is_other :
    (j k : Text) (m : Dict ℕ) → is_noted (find j m) ≡ true → find k m ≡ none → text_eq j k ≡ false
known_is_other j k m h n = elim (Bool-cases (text_eq j k)) [
  | inl e ↦
      absurd (cc (ap (λ x. is_noted (find x m)) (sym ((text_eq_iff j k).0 e)) ∙ h, ap is_noted n))
  | inr e ↦ e
]

mark_denied-IsFullWithout :
    (k j : Text) (t : ℕ) (d : Disambiguator)
    → IsFullWithout k d
    → IsFullWithout k (mark_denied d j t).0
unfolding mark_denied
mark_denied-IsFullWithout k j t d (full, new) =
    let full' : ltb (length d.denied) max_witnessed ≡ false = ground (arith, full) in
    elim (Bool-cases (is_recent (find j d.denied) t d.interval)) [
      | inl b ↦ rw b (full, new)
      | inr b ↦ elim (Bool-cases (is_noted (find j d.denied))) [
        | inr c ↦ rw b (rw full' (rw c (full, new)))
        | inl c ↦
            let other : text_eq j k ≡ false = known_is_other j k d.denied c new in
            rw b (
              rw full' (
                rw c (
                  omega (arith, full, length-insert j t d.denied),
                  find-insert j k t d.denied ∙ rw other new,
                )))
      ]
    ]

run_events-IsFullWithout :
    (es : List Event) (k : Text) (d : Disambiguator)
    → All IsRefusal es
    → IsFullWithout k d
    → IsFullWithout k (run_events es d)
unfolding run_events
run_events-IsFullWithout [] k d hs f = f
run_events-IsFullWithout (refused j t ∷ es) k d (h, hs) f =
    run_events-IsFullWithout es k (mark_denied d j t).0 hs (mark_denied-IsFullWithout k j t d f)
run_events-IsFullWithout (succeeded j ∷ es) k d (h, hs) f = absurd h

mark_denied-grants :
    (k : Text) (t : ℕ) (d : Disambiguator) → IsFullWithout k d → (mark_denied d k t).1 ≡ true
unfolding mark_denied
mark_denied-grants k t d (full, new) = ground (arith, full, new)

-- When 512 other keys are remembered, the refusals of a further key are not: as long as no call
-- succeeds, each of them is granted a confirming attempt, at any time and after any refusals.
pub full_memory_grants_always :
    (d : Disambiguator) (k : Text) (es : List Event) (u : ℕ)
    → max_witnessed ≤ length d.denied
    → find k d.denied ≡ none
    → All IsRefusal es
    → (mark_denied (run_events es d) k u).1 ≡ true
full_memory_grants_always d k es u full new hs =
    mark_denied-grants k u (run_events es d) (run_events-IsFullWithout es k d hs (full, new))
