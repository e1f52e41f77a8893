-- ===== src/DataCache/Recovery/Runs.antt =====
-- The journal of a run on a disk that takes every append, and what a crash leaves of it
-- (internal/datacache/journal.go).
use opendrive_bridge.Common.{
  ℕ, zero, suc, ◌+◌, ◌≤◌, ◌≡◌, refl, sym, ap, subst, Bool, true, false, List, [], ◌∷◌, ◌++◌, arith,
  inl, inr, Bool-cases, leb, leb→le, leb→lt, take, length, length-append, All, if◌then◌else◌,
}
use opendrive_bridge.Common.Text.{Text}
use opendrive_bridge.Common.Dict.{Dict}
use opendrive_bridge.DataCache.Types.{
  Object, JournalRecord, op_touch, Line, whole, broken, Journal, Cache,
}
use opendrive_bridge.DataCache.Journal.{
  append, IsReliable, apply_record, ReplayResult, replay_lines, replay_journal,
}
use opendrive_bridge.DataCache.Recovery.Records.{Agree, touch-Agree}

-- The index that a log gives, with or without a part of a line at its end.
abbrev pub replayed : Bool → List Line → Dict Object
replayed torn lines = (replay_journal lines torn).objects

abbrev pub IsWhole : Line → Type 0
IsWhole (whole rec) = Unit
IsWhole broken = ⊥

replay_lines-snoc :
    (t : Bool) (ls : List Line) (rec : JournalRecord) (r : ReplayResult)
    → All IsWhole ls
    → (replay_lines t (ls ++ (whole rec ∷ [])) r).objects
      ≡ apply_record (replay_lines t ls r).objects rec
unfolding replay_lines
replay_lines-snoc t [] rec r hs = refl
replay_lines-snoc t (whole x ∷ ls) rec r hs = replay_lines-snoc t ls rec _ hs.1
replay_lines-snoc t (broken ∷ ls) rec r hs = elim hs.0 [ ]

replayed-snoc :
    (t : Bool) (ls : List Line) (rec : JournalRecord)
    → All IsWhole ls
    → replayed t (ls ++ (whole rec ∷ [])) ≡ apply_record (replayed t ls) rec
unfolding replay_journal
replayed-snoc t ls rec hs = replay_lines-snoc t ls rec _ hs

All-IsWhole-snoc :
    (ls : List Line) (rec : JournalRecord) → All IsWhole ls → All IsWhole (ls ++ (whole rec ∷ []))
All-IsWhole-snoc [] rec hs = (tt, tt)
All-IsWhole-snoc (l ∷ ls) rec hs = (hs.0, All-IsWhole-snoc ls rec hs.1)

take_all : (n : ℕ) (ls : List Line) → length ls ≤ n → take n ls ≡ ls
take_all zero [] h = refl
take_all zero (l ∷ ls) h = absurd (omega arith)
take_all (suc n) [] h = refl
take_all (suc n) (l ∷ ls) h = ap (λ x. l ∷ x) (take_all n ls (omega arith))

take-append : (n : ℕ) (ls ms : List Line) → n ≤ length ls → take n (ls ++ ms) ≡ take n ls
take-append zero ls ms h = refl
take-append (suc n) [] ms h = absurd (omega arith)
take-append (suc n) (l ∷ ls) ms h = ap (λ x. l ∷ x) (take-append n ls ms (omega arith))

-- The append on a reliable log.
pub append-reliable :
    (rec : JournalRecord) (sync : Bool) (j : Journal)
    → IsReliable j
    → (append rec sync j).0 ≡ record j {
      lines = j.lines ++ (whole rec ∷ []);
      tail = false;
      records = j.records + 1;
      flushed = if sync then length (j.lines ++ (whole rec ∷ [])) else j.flushed;
      syncs = if sync then j.syncs + 1 else j.syncs;
    }
unfolding append
append-reliable rec sync j h = rw (h.0, append) (rw (h.1) refl)

-- Whatever part of the log past its last flush a crash takes, what is left replays to the index.
pub record Recorded (j : Journal) (objs : Dict Object) : Type 0 where
  pub reliable : IsReliable j
  pub wholes : All IsWhole j.lines
  pub within : j.flushed ≤ length j.lines
  pub agrees : (t : Bool) (n : ℕ) → j.flushed ≤ n → Agree (replayed t (take n j.lines)) objs

abbrev pub IsRecorded : Cache → Type 0
IsRecorded c = Recorded c.journal c.objs

-- The whole log replays to the index.
Recorded-replayed :
    {j : Journal} {m : Dict Object} (t : Bool) → Recorded j m → Agree (replayed t j.lines) m
Recorded-replayed {j} {m} t r =
    subst (λ ls. Agree (replayed t ls) m) (take_all (length j.lines) j.lines (omega arith))
      (r.agrees t (length j.lines) r.within)

-- A flushed record, and the index that it leads to.
pub flushed-Recorded :
    (rec : JournalRecord) {j : Journal} {m : Dict Object} (m' : Dict Object)
    → Recorded j m
    → ((x : Dict Object) → Agree x m → Agree (apply_record x rec) m')
    → Recorded (append rec true j).0 m'
flushed-Recorded rec {j} {m} m' r f = rw (append-reliable rec true j r.reliable) (record {
  reliable = (r.reliable.0, refl);
  wholes = All-IsWhole-snoc j.lines rec r.wholes;
  within = omega arith;
  agrees = λ t n h.
      subst (λ ls. Agree (replayed t ls) m') (sym (take_all n (j.lines ++ (whole rec ∷ [])) h))
        (subst (λ x. Agree x m') (sym (replayed-snoc t j.lines rec r.wholes))
          (f (replayed t j.lines) (Recorded-replayed t r)));
})

-- A record that is not flushed, and that the index does not show.
pub touched-Recorded :
    (p : Text) (now : ℕ) {j : Journal} {m : Dict Object}
    → Recorded j m
    → Recorded (append (op_touch p now) false j).0 m
touched-Recorded p now {j} {m} r =
    rw (append-reliable (op_touch p now) false j r.reliable) (record {
      reliable = (r.reliable.0, refl);
      wholes = All-IsWhole-snoc j.lines (op_touch p now) r.wholes;
      within = omega (arith, r.within, length-append j.lines (whole (op_touch p now) ∷ []));
      agrees = λ t n h. elim (Bool-cases (leb n (length j.lines))) [
        | inl e ↦
            subst (λ ls. Agree (replayed t ls) m)
              (sym
                (take-append n j.lines (whole (op_touch p now) ∷ []) (leb→le n (length j.lines) e)))
              (r.agrees t n h)
        | inr e ↦
            subst (λ ls. Agree (replayed t ls) m)
              (sym (
                take_all n (j.lines ++ (whole (op_touch p now) ∷ [])) (
                  omega (
                    arith,
                    leb→lt n (length j.lines) e,
                    length-append j.lines (whole (op_touch p now) ∷ []),
                  ))))
              (subst (λ x. Agree x m) (sym (replayed-snoc t j.lines (op_touch p now) r.wholes))
                (touch-Agree p now (Recorded-replayed t r)))
      ];
    })

-- The index may move where the logs that agree with it follow.
pub moved-Recorded :
    {j : Journal} {m : Dict Object} (m' : Dict Object)
    → Recorded j m
    → ((x : Dict Object) → Agree x m → Agree x m')
    → Recorded j m'
moved-Recorded m' r f = record {
  reliable = r.reliable;
  wholes = r.wholes;
  within = r.within;
  agrees = λ t n h. f _ (r.agrees t n h);
}
