-- ===== src/Upload/Loop.antt =====
-- The chunk loop as one append (`sendChunks` of pkg/opendrive/upload.go), its end and its requests.
use mathlib.Core.List.{append-nil, append_assoc}
use opendrive_bridge.Common.{
  ℕ, zero, suc, ◌+◌, ◌≤◌, ◌≡◌, refl, sym, ap, subst, ◌∙◌, Bool, true, false, Option, none, some,
  List, [], ◌∷◌, ◌++◌, arith, length, take, skip, take-skip, take_empty, skip-all, length-append,
  is_some, ◌==◌, if◌then◌else◌, inl, inr, Bool-cases, Option-cases, Begins, some_inj,
}
use opendrive_bridge.Upload.Types.{UploadError, source_unreadable, Calls}
use opendrive_bridge.Upload.Chunks.{
  Posted, Place, send_chunk_resuming, Source, read_end, goes_on, is_broken, Progress, progress_by,
  Sent, size_check, loop_over, after_chunk, send_loop,
}
use opendrive_bridge.Upload.Assembly.{Assembles, Landed, send_chunk_resuming-Landed}

-- The bytes that go out for a content, chunk after chunk.
unfoldable pub outgoing : (List ℕ → List ℕ) → ℕ → ℕ → List ℕ → List ℕ
outgoing wire chunk zero xs = []
outgoing wire chunk (suc fuel) xs =
    let rest = outgoing wire chunk fuel (skip chunk xs) in
    if length (take chunk xs) == 0 then [] else wire (take chunk xs) ++ rest

counted : (n : ℕ) (xs ys : List ℕ) → n + length (xs ++ ys) ≡ n + length xs + length ys
counted n xs ys = omega (arith, length-append xs ys)

-- A chunk without bytes is the end of the content.
pub nothing_read : (n : ℕ) (xs : List ℕ) → 1 ≤ n → (length (take n xs) == 0) ≡ true → xs ≡ []
nothing_read n [] k h = refl
nothing_read zero (x ∷ xs) k h = absurd (omega (arith, k))
nothing_read (suc n) (x ∷ xs) k h = absurd (ground (arith, h))

-- A chunk that does not fill its buffer is the last one.
short_read : (n : ℕ) (s : Source) → goes_on (read_end n s) ≡ false → length s.content ≤ n
short_read n s h = ground (arith, h)

outgoing_empty : (wire : List ℕ → List ℕ) (chunk fuel : ℕ) → outgoing wire chunk fuel [] ≡ []
unfolding outgoing
outgoing_empty wire chunk zero = refl
outgoing_empty wire chunk (suc fuel) = rw (take_empty chunk) refl

module _ {S F : Type 0} (api : Calls S F) (place : Place) (wire : List ℕ → List ℕ) (chunk size : ℕ)
    (stored : S → List ℕ) where
  -- A chunk loop that has come to its end: upstream holds a part of what goes out, and all of it where
  -- no error is reported; then every byte of the source was read, counted and digested.
  pub record Assembled (up : S) (g : Progress) (out content : List ℕ) (x : Sent S) : Type 0 where
    pub part : Begins (stored x.up) (stored up ++ out)
    pub whole : x.failure ≡ none → stored x.up ≡ stored up ++ out
    pub all_read : x.failure ≡ none → x.so_far.digested ≡ g.digested ++ content
    pub sized : x.failure ≡ none → size_check size (g.source_offset + length content) ≡ none

  empty-Assembled :
      (up : S) (g : Progress) (x : Sent S)
      → x.up ≡ up
      → (x.failure ≡ none → x.so_far ≡ g)
      → (x.failure ≡ none → size_check size g.source_offset ≡ none)
      → Assembled up g [] [] x
  empty-Assembled up g x e same sz = record {
    part = ([], append-nil (stored x.up) ∙ (ap stored e ∙ sym (append-nil (stored up))));
    whole = λ h. ap stored e ∙ sym (append-nil (stored up));
    all_read = λ h. ap (λ q. q.digested) (same h) ∙ sym (append-nil g.digested);
    sized = λ h. ap (size_check size) (add_zero g.source_offset) ∙ sz h;
  }
    where
      add_zero : (n : ℕ) → n + 0 ≡ n
      add_zero n = omega arith

  step-Assembled :
      (up up' : S) (g : Progress) (read payload rest content : List ℕ) (n : ℕ) (y : Sent S)
      → stored up' ≡ stored up ++ payload
      → Assembled up' (progress_by read payload n g) rest content y
      → Assembled up g (payload ++ rest) (read ++ content) y
  step-Assembled up up' g read payload rest content n y h a =
      let joined : stored up' ++ rest ≡ stored up ++ (payload ++ rest) =
        ap (λ s. s ++ rest) h ∙ append_assoc (stored up) payload rest in
      record {
        part = (a.part.0, a.part.1 ∙ joined);
        whole = λ f. a.whole f ∙ joined;
        all_read = λ f. a.all_read f ∙ append_assoc g.digested read content;
        sized = λ f. ap (size_check size) (counted g.source_offset read content) ∙ a.sized f;
      }

  failed-Assembled :
      (up : S) (g : Progress) (payload rest content : List ℕ) (x : Posted S) (y : Sent S)
      → Landed api place stored up payload x
      → y.up ≡ x.up
      → is_some y.failure ≡ true
      → Assembled up g (payload ++ rest) content y
  failed-Assembled up g payload rest content x y l e h = record {
    part = (
      skip l.within.0 payload ++ rest,
      ap (λ s. s ++ (skip l.within.0 payload ++ rest)) (ap stored e ∙ l.within.1)
          ∙ (append_assoc (stored up) (take l.within.0 payload) (skip l.within.0 payload ++ rest)
              ∙ ap (λ s. stored up ++ s)
                  (sym (append_assoc (take l.within.0 payload) (skip l.within.0 payload) rest)
                    ∙ ap (λ s. s ++ rest) (take-skip l.within.0 payload))),
    );
    whole = λ f. absurd (cc (f, h));
    all_read = λ f. absurd (cc (f, h));
    sized = λ f. absurd (cc (f, h));
  }

  abbrev pub Ends : ℕ → S → Progress → Source → Option (Sent S) → Type 0
  Ends fuel up g s o =
      (y : Sent S) → o ≡ some y → Assembled up g (outgoing wire chunk fuel s.content) s.content y

  unreadable : S → Progress → Sent S
  unreadable up g = record { up = up; so_far = g; failure = some source_unreadable }

  end_of : Bool → S → Progress → Sent S
  unfolding unreadable
  end_of b up g = if b then unreadable up g else loop_over api place wire chunk size up g

  end_of-Assembled : (b : Bool) (up : S) (g : Progress) → Assembled up g [] [] (end_of b up g)
  unfolding end_of
  end_of-Assembled true up g =
      empty-Assembled up g (unreadable up g) refl (λ h. absurd (cc h)) (λ h. absurd (cc h))
  end_of-Assembled false up g =
      empty-Assembled up g (loop_over api place wire chunk size up g) refl (λ h. refl) (λ h. h)

  empty-Ends :
      (up : S) (g : Progress) (s : Source) (y : Sent S)
      → s.content ≡ []
      → some (end_of (is_broken (read_end chunk s)) up g) ≡ some y
      → Assembled up g [] s.content y
  empty-Ends up g s y e h = rw e (
      subst (Assembled up g [] []) (some_inj h)
        (end_of-Assembled (is_broken (read_end chunk s)) up g))

  after_failure : Progress → Posted S → UploadError → Sent S
  after_failure g x e = record {
    up = x.up;
    so_far = record g { chunks = g.chunks + x.attempts };
    failure = some e;
  }

  module _ (up : S) (g : Progress) (read payload : List ℕ) (more : Bool) (x : Posted S)
      (rest : Option (Sent S)) where
    chunk_failed :
        (e : UploadError)
        → x.failure ≡ some e
        → after_chunk api place wire chunk size read payload more g x rest
          ≡ some (after_failure g x e)
    unfolding after_failure
    chunk_failed e f = rw f refl

    chunk_more :
        x.failure ≡ none
        → more ≡ true
        → after_chunk api place wire chunk size read payload more g x rest ≡ rest
    chunk_more f b = rw f (rw b refl)

    chunk_last :
        x.failure ≡ none
        → more ≡ false
        → after_chunk api place wire chunk size read payload more g x rest
          ≡ some (loop_over api place wire chunk size x.up (progress_by read payload x.attempts g))
    chunk_last f b = rw f (rw b refl)

    -- A chunk, and the loop behind it: it failed, it was the last one, or the loop goes on.
    chunk-Assembled :
        (out tail : List ℕ) (y : Sent S)
        → Landed api place stored up payload x
        → (x.failure ≡ none
            → (z : Sent S) → rest ≡ some z
            → Assembled x.up (progress_by read payload x.attempts g) out tail z)
        → (more ≡ false → (out ≡ []) × (tail ≡ []))
        → after_chunk api place wire chunk size read payload more g x rest ≡ some y
        → Assembled up g (payload ++ out) (read ++ tail) y
    unfolding after_failure
    chunk-Assembled out tail y l ih last h = elim (Option-cases x.failure) [
      | inr (e, f) ↦
          subst (Assembled up g (payload ++ out) (read ++ tail))
            (some_inj (sym (chunk_failed e f) ∙ h))
            (failed-Assembled up g payload out (read ++ tail) x (after_failure g x e) l refl refl)
      | inl f ↦
          step-Assembled up x.up g read payload out tail x.attempts y (l.whole f)
            (elim (Bool-cases more) [
              | inl b ↦ ih f y (sym (chunk_more f b) ∙ h)
              | inr b ↦
                  let g' = progress_by read payload x.attempts g in
                  rw ((last b).0) (
                    rw ((last b).1) (
                      subst (Assembled x.up g' [] []) (some_inj (sym (chunk_last f b) ∙ h)) (
                        empty-Assembled x.up g' (loop_over api place wire chunk size x.up g') refl
                          (λ k. refl) (λ k. k))))
            ])
    ]

  -- The loop is one append.
  pub send_loop-Assembled :
      Assembles api place stored
      → 1 ≤ chunk
      → (fuel : ℕ) (up : S) (g : Progress) (s : Source) → g.wire_offset ≡ length (stored up)
      → Ends fuel up g s (send_loop api place wire chunk size fuel up g s)
  unfolding send_loop outgoing end_of unreadable
  send_loop-Assembled good_up pos zero up g s w = λ y h. absurd (cc h)
  send_loop-Assembled good_up pos (suc fuel) up g s w =
      let read = take chunk s.content in
      let payload = wire read in
      let x = send_chunk_resuming api place up g.wire_offset payload in
      let l : Landed api place stored up payload x =
        rw w (send_chunk_resuming-Landed api place stored good_up up payload) in
      let g' = progress_by read payload x.attempts g in
      let s' : Source = record s { content = skip chunk s.content } in
      let counted' : x.failure ≡ none → g'.wire_offset ≡ length (stored x.up) = λ f.
        ap (λ n. n + length payload) w
        ∙ (sym (length-append (stored up) payload) ∙ ap length (sym (l.whole f))) in
      elim (Bool-cases (length read == 0)) [
        | inl n ↦ rw n (λ y. empty-Ends up g s y (nothing_read chunk s.content pos n))
        | inr n ↦ rw n (λ y h.
            subst
              (λ c. Assembled up g (payload ++ outgoing wire chunk fuel (skip chunk s.content)) c y)
              (take-skip chunk s.content)
              (chunk-Assembled up g read payload (goes_on (read_end chunk s)) x
                (send_loop api place wire chunk size fuel x.up g' s')
                (outgoing wire chunk fuel (skip chunk s.content)) (skip chunk s.content) y l
                (λ f. send_loop-Assembled good_up pos fuel x.up g' s' (counted' f))
                (λ b.
                  let e = skip-all chunk s.content (short_read chunk s b) in
                  (ap (outgoing wire chunk fuel) e ∙ outgoing_empty wire chunk fuel, e))
                h))
      ]
