-- ===== src/Download/Verified.antt =====
-- The digest of a download (`Download` of pkg/opendrive/download.go).
use opendrive_bridge.Common.{
  ℕ, ◌≡◌, refl, true, false, not, ◌&&◌, ◌||◌, none, List, skip, length, ltb, ◌==◌, inl, inr,
  Bool-cases, Option-cases, good, Answer-cases,
}
use opendrive_bridge.Common.Text.{is_empty}
use opendrive_bridge.DataCache.Path.{equal_fold}
use opendrive_bridge.Download.{
  DownloadParams, target_of, DownloadResult, Reply, Remote, is_json_type, total_from, Download,
  fresh_result, verify, copied, receive, range_of, streamed, probed, download, validate_download,
}

module _ (r : Remote) (p : DownloadParams) where
  -- The digest of the body was compared, and is the wanted one.
  abbrev pub Checked : Reply → Download → Type 0
  Checked x d =
      (d.result.hash ≡ r.digest x.body)
      × (d.result.hash_verified
          ≡ ((p.offset == 0 || not (x.status == 206)) && not (is_empty p.hash)))
      × (d.result.hash_verified ≡ true → equal_fold (r.digest x.body) p.hash ≡ true)

  verify-Checked :
      (x : Reply) (out : List ℕ) (q : DownloadResult)
      → q.hash_verified ≡ false
      → (let d =
            verify r p x.body
              (x.status == 206)
              (record { out = out; result = q; failure = none }) in
          d.failure ≡ none → Checked x d)
  unfolding verify
  verify-Checked x out q new =
      elim (Bool-cases ((p.offset == 0 || not (x.status == 206)) && not (is_empty p.hash))) [
        | inr b ↦ rw b (λ h. (refl, new, λ k. absurd (cc (new, k))))
        | inl b ↦ elim (Bool-cases (equal_fold (r.digest x.body) p.hash)) [
          | inl e ↦ rw b (rw e (λ h. (refl, refl, λ k. refl)))
          | inr e ↦ rw b (rw e (λ h. absurd (cc h)))
        ]
      ]

  copied-Checked :
      (x : Reply) (out : List ℕ) (q : DownloadResult)
      → q.hash_verified ≡ false
      → (copied r p x (x.status == 206) q out).failure ≡ none
      → Checked x (copied r p x (x.status == 206) q out)
  unfolding copied
  copied-Checked x out q new = elim (Bool-cases x.breaks) [
    | inl b ↦ rw b (λ h. absurd (cc h))
    | inr b ↦ rw b (verify-Checked x out (record q { written = length out }) new)
  ]

  receive-Checked : (x : Reply) → (receive r p x).failure ≡ none → Checked x (receive r p x)
  unfolding receive
  receive-Checked x =
      let q : DownloadResult = record (fresh_result p.offset) {
        resumed = x.status == 206;
        total = total_from r x (x.status == 206) p.offset;
        name = x.name;
      } in
      elim (Bool-cases (is_json_type r x.content_type)) [
        | inl j ↦ rw j (λ h. absurd (cc h))
        | inr j ↦ elim (Bool-cases (ltb 0 p.offset && not (x.status == 206))) [
          | inr c ↦ rw j (rw c (copied-Checked x x.body q refl))
          | inl c ↦ elim (Bool-cases (ltb (length x.body) p.offset)) [
            | inl s ↦ rw j (rw c (rw s (λ h. absurd (cc h))))
            | inr s ↦ rw j (rw c (rw s (copied-Checked x (skip p.offset x.body) q refl)))
          ]
        ]
      ]

  -- A download that reports no error had a stream, and its digest is that of all bytes of the stream.
  -- It was compared with the wanted one where that is known and the stream was the whole file, because
  -- nothing was to be skipped or upstream did not answer 206, and then it is the wanted one.
  pub download-Checked :
      (download r p).failure ≡ none
      → (x : Reply) × (r.stream (target_of p) (range_of r p) ≡ good x) × Checked x (download r p)
  unfolding download streamed
  download-Checked = elim (Option-cases (validate_download p)) [
    | inr (e, v) ↦ rw (v, download) (λ h. absurd (cc h))
    | inl v ↦ elim (Option-cases (probed r p)) [
      | inr (e, q) ↦ rw (v, download) (rw q (λ h. absurd (cc h)))
      | inl q ↦ elim (Answer-cases (r.stream (target_of p) (range_of r p))) [
        | inr (e, a) ↦ rw (v, download) (rw q (rw a (λ h. absurd (cc h))))
        | inl (x, a) ↦ rw (v, download) (rw q (rw a (λ h. (x, refl, receive-Checked x h))))
      ]
    ]
  ]
