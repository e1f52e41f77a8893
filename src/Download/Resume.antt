-- ===== src/Download/Resume.antt =====
-- A resumed download (`DownloadFile` of pkg/opendrive/download.go): what is on the disk stays a
-- beginning of the remote content, whichever way upstream answers.
use mathlib.Core.List.{append-nil, append_assoc}
use opendrive_bridge.Common.{
  ℕ, ◌≤◌, ◌≡◌, refl, sym, ap, subst, ◌∙◌, Bool, true, false, not, ◌&&◌, ◌||◌, none, some, List, [],
  ◌∷◌, ◌++◌, arith, length, take, skip, take-skip, skip-append, take-append, take-append_le, ltb,
  ◌==◌, inl, inr, Bool-cases, Option-cases, good, Answer-cases, Begins, is_some,
}
use opendrive_bridge.Common.Text.{is_empty}
use opendrive_bridge.Download.{
  DownloadParams, Target, target_of, DownloadResult, upstream_failed, ended_before_offset, Reply,
  Remote, is_json_type, read_instead, total_from, Download, fresh_result, gives_up, verify, copied,
  receive, range_of, streamed, probed, download, validate_download,
}

-- A body of a stream that should give `full`: a beginning of it, and all of it unless reading breaks.
abbrev pub Gives : Reply → List ℕ → Type 0
Gives x full = Begins x.body full × (x.breaks ≡ false → x.body ≡ full)

-- Upstream's part: bytes come from the offset where the status is 206, and from the start otherwise.
pub record Serves (r : Remote) (id : Target) (content : List ℕ) : Type 0 where
  pub tail :
      (n : ℕ) (x : Reply)
      → r.stream id (some n) ≡ good x
      → is_json_type r x.content_type ≡ false
      → (x.status == 206) ≡ true
      → Gives x (skip n content)
  pub restart :
      (n : ℕ) (x : Reply)
      → r.stream id (some n) ≡ good x
      → is_json_type r x.content_type ≡ false
      → (x.status == 206) ≡ false
      → Gives x content
  pub start :
      (x : Reply)
      → r.stream id none ≡ good x
      → is_json_type r x.content_type ≡ false
      → Gives x content

-- What is on the disk with what was received behind it: a beginning of the content, and all of it
-- where no error is reported.
abbrev pub Extends : List ℕ → List ℕ → Download → Type 0
Extends f content d = Begins (f ++ d.out) content × (d.failure ≡ none → f ++ d.out ≡ content)

module _ (r : Remote) (p : DownloadParams) where
  verify-out :
      (body : List ℕ) (resumed : Bool) (d : Download) → (verify r p body resumed d).out ≡ d.out
  unfolding verify
  verify-out body resumed d =
      elim (Bool-cases ((p.offset == 0 || not resumed) && not (is_empty p.hash))) [
        | inl b ↦ rw b refl
        | inr b ↦ rw b refl
      ]

  copied-Extends :
      (f out content : List ℕ) (x : Reply) (resumed : Bool) (d : DownloadResult)
      → Begins (f ++ out) content
      → (x.breaks ≡ false → f ++ out ≡ content)
      → Extends f content (copied r p x resumed d out)
  unfolding copied
  copied-Extends f out content x resumed d part whole = elim (Bool-cases x.breaks) [
    | inl b ↦ rw b (part, λ h. absurd (cc h))
    | inr b ↦
        let d' : DownloadResult = record d { written = length out } in
        let same : out
            ≡ (verify r p x.body resumed (record { out = out; result = d'; failure = none })).out =
          sym (verify-out x.body resumed (record { out = out; result = d'; failure = none })) in
        rw b (
          subst (λ o. Begins (f ++ o) content) same part,
          λ h. ap (λ o. f ++ o) (sym same) ∙ whole b,
        )
  ]

-- A body that starts where the file ends, and one that starts from zero, less what the file has.
tail_fits :
    (f rest content : List ℕ) (x : Reply)
    → f ++ rest ≡ content
    → Gives x (skip (length f) content)
    → Begins (f ++ x.body) content × (x.breaks ≡ false → f ++ x.body ≡ content)
tail_fits f rest content x h (g, whole) =
    let e : skip (length f) content ≡ rest = ap (skip (length f)) (sym h) ∙ skip-append f rest in
    (
      (g.0, append_assoc f x.body g.0 ∙ (ap (λ s. f ++ s) (g.1 ∙ e) ∙ h)),
      λ b. ap (λ s. f ++ s) (whole b ∙ e) ∙ h,
    )

skipped_fits :
    (f rest content : List ℕ) (x : Reply)
    → f ++ rest ≡ content
    → length f ≤ length x.body
    → Gives x content
    → Begins (f ++ skip (length f) x.body) content
      × (x.breaks ≡ false → f ++ skip (length f) x.body ≡ content)
skipped_fits f rest content x h k (g, whole) =
    let n = length f in
    let same : take n x.body ≡ f =
      sym (take-append_le n x.body g.0 k) ∙ (ap (take n) (g.1 ∙ sym h) ∙ take-append f rest) in
    let e : f ++ skip n x.body ≡ x.body =
      ap (λ s. s ++ skip n x.body) (sym same) ∙ take-skip n x.body in
    ((g.0, ap (λ s. s ++ g.0) e ∙ g.1), λ b. e ∙ whole b)

and_not : (a b : Bool) → (a && not b) ≡ true → b ≡ false
and_not true false h = refl
and_not true true h = absurd (cc h)
and_not false b h = absurd (cc h)

or_not : {n : ℕ} {b : Bool} → b ≡ false → (ltb 0 n && not b) ≡ false → n ≡ 0
or_not s c = ground (arith, s, c)

no_bytes : (n : ℕ) (xs : List ℕ) → n ≡ length xs → n ≡ 0 → xs ≡ []
no_bytes n [] h z = refl
no_bytes n (x ∷ xs) h z = absurd (omega (arith, h, z))

zero_bytes : {n m : ℕ} → n ≡ m → ltb 0 n ≡ false → m ≡ 0
zero_bytes h b = ground (arith, h, b)

enough : {n m k : ℕ} → n ≡ m → ltb k n ≡ false → m ≤ k
enough h k = ground (arith, h, k)

module _ (r : Remote) (content : List ℕ) (f : List ℕ) (held : Begins f content) where
  nothing-Extends : (d : Download) → d.out ≡ [] → is_some d.failure ≡ true → Extends f content d
  nothing-Extends d e h = (
    (held.0, ap (λ s. (f ++ s) ++ held.0) e ∙ (ap (λ s. s ++ held.0) (append-nil f) ∙ held.1)),
    λ k. absurd (cc (k, h)),
  )

  receive-Extends :
      (p : DownloadParams) (x : Reply)
      → p.offset ≡ length f
      → (is_json_type r x.content_type ≡ false
          → (x.status == 206) ≡ true
          → Gives x (skip (length f) content))
      → (is_json_type r x.content_type ≡ false → (x.status == 206) ≡ false → Gives x content)
      → Extends f content (receive r p x)
  unfolding receive
  receive-Extends p x at tail restart =
      let d : DownloadResult = record (fresh_result p.offset) {
        resumed = x.status == 206;
        total = total_from r x (x.status == 206) p.offset;
        name = x.name;
      } in
      elim (Bool-cases (is_json_type r x.content_type)) [
        | inl j ↦ rw j (nothing-Extends (gives_up p.offset (read_instead r x)) refl refl)
        | inr j ↦ elim (Bool-cases (ltb 0 p.offset && not (x.status == 206))) [
          | inr c ↦
              let (part, whole) = straight j c in
              rw j (rw c (copied-Extends r p f x.body content x (x.status == 206) d part whole))
          | inl c ↦ elim (Bool-cases (ltb (length x.body) p.offset)) [
            | inl short ↦ rw j (
                rw c (
                  rw short (
                    nothing-Extends
                      (record { out = []; result = d; failure = some ended_before_offset }) refl
                      refl)))
            | inr long ↦
                let (part, whole) = skipped j c long in
                rw j (
                  rw c (
                    rw long (
                      copied-Extends r p f (skip p.offset x.body) content x (x.status == 206) d part
                        whole)))
          ]
        ]
      ]
    where
      empty_fits :
          f ≡ []
          → Gives x content
          → Begins (f ++ x.body) content × (x.breaks ≡ false → f ++ x.body ≡ content)
      empty_fits e (g, whole) = rw e (g, whole)

      skipped :
          is_json_type r x.content_type ≡ false
          → (ltb 0 p.offset && not (x.status == 206)) ≡ true
          → ltb (length x.body) p.offset ≡ false
          → Begins (f ++ skip p.offset x.body) content
            × (x.breaks ≡ false → f ++ skip p.offset x.body ≡ content)
      skipped j c long =
          subst
            (λ n.
              Begins (f ++ skip n x.body) content
              × (x.breaks ≡ false → f ++ skip n x.body ≡ content))
            (sym at)
            (skipped_fits f held.0 content x held.1 (enough at long)
              (restart j (and_not (ltb 0 p.offset) (x.status == 206) c)))

      straight :
          is_json_type r x.content_type ≡ false
          → (ltb 0 p.offset && not (x.status == 206)) ≡ false
          → Begins (f ++ x.body) content × (x.breaks ≡ false → f ++ x.body ≡ content)
      straight j c = elim (Bool-cases (x.status == 206)) [
        | inl s ↦ tail_fits f held.0 content x held.1 (tail j s)
        | inr s ↦ empty_fits (no_bytes p.offset f at (or_not s c)) (restart j s)
      ]

  -- One run of `Download` extends what is on the disk.
  pub download-Extends :
      (p : DownloadParams)
      → Serves r (target_of p) content
      → p.offset ≡ length f
      → Extends f content (download r p)
  unfolding download streamed
  download-Extends p law at = elim (Option-cases (validate_download p)) [
    | inr (e, v) ↦ rw (v, download) (nothing-Extends (gives_up p.offset e) refl refl)
    | inl v ↦ elim (Option-cases (probed r p)) [
      | inr (e, q) ↦ rw (v, download) (rw q (nothing-Extends (gives_up p.offset e) refl refl))
      | inl q ↦ elim (Answer-cases (r.stream (target_of p) (range_of r p))) [
        | inr (e, a) ↦
            rw (v, download)
              (rw q (rw a (nothing-Extends (gives_up p.offset (upstream_failed e)) refl refl)))
        | inl (x, a) ↦
            rw (v, download)
              (rw q (
                rw a (elim (Bool-cases (ltb 0 p.offset)) [
                  | inl b ↦
                      let asked = ranged b ∙ a in
                      receive-Extends p x at
                        (λ j s.
                          subst (λ n. Gives x (skip n content)) at (law.tail p.offset x asked j s))
                        (λ j s. law.restart p.offset x asked j s)
                  | inr b ↦
                      let asked = unranged b ∙ a in
                      receive-Extends p x at
                        (λ j s. subst (Gives x) (all_left b) (law.start x asked j))
                        (λ j s. law.start x asked j)
                ])))
      ]
    ]
  ]
    where
      ranged :
          ltb 0 p.offset ≡ true
          → r.stream (target_of p) (some p.offset) ≡ r.stream (target_of p) (range_of r p)
      ranged b = rw b refl

      unranged :
          ltb 0 p.offset ≡ false
          → r.stream (target_of p) none ≡ r.stream (target_of p) (range_of r p)
      unranged b = rw b refl

      all_left : ltb 0 p.offset ≡ false → content ≡ skip (length f) content
      all_left b = rw (zero_bytes at b) refl
