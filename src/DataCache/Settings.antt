-- ===== src/DataCache/Settings.antt =====
-- The defaults of the gateway's configuration (internal/datacache/datacache.go, `withDefaults`).
-- A number of 0 or below is 0 here; a watermark is in percent.
use opendrive_bridge.Common.{
  ℕ, ◌*◌, ◌≤◌, ◌<◌, ◌≡◌, refl, sym, ◌∙◌, Bool, true, not, ◌&&◌, ◌||◌, [], ◌∷◌, arith, ltb, leb,
  ◌==◌, if_intro, ap, if◌then◌else◌,
}
use opendrive_bridge.DataCache.Types.{Config, Cache, Digest}
use opendrive_bridge.DataCache.Index.{
  evict_if_needed, victims, doom, candidates, low_mark, high_mark, forget_all,
}

-- The fields of `Config` that `withDefaults` looks at, before it fills them in.
pub record Settings : Type 0 where
  pub has_dir : Bool
  pub max_bytes : ℕ
  pub max_dirty_bytes : ℕ
  pub high_watermark : ℕ
  pub low_watermark : ℕ
  pub write_back : Bool
  pub has_upstream : Bool

pub data Refusal : Type 0 where
  no_dir dirty_above_total no_upstream : Refusal

pub data Settled : Type 0 where
  settled_as : Config → Settled
  unusable : Refusal → Settled

abbrev pub default_max_bytes : ℕ
default_max_bytes = 20 * 1073741824

abbrev pub default_max_dirty_bytes : ℕ
default_max_dirty_bytes = 5 * 1073741824

abbrev pub default_high_watermark : ℕ
default_high_watermark = 90

abbrev pub default_low_watermark : ℕ
default_low_watermark = 70

unfoldable pub filled_in : Settings → Config
filled_in s =
    let high =
      if s.high_watermark == 0 || ltb 100 s.high_watermark
      then default_high_watermark
      else s.high_watermark in
    record {
      max_bytes = if s.max_bytes == 0 then default_max_bytes else s.max_bytes;
      max_dirty_bytes =
          if s.max_dirty_bytes == 0 then default_max_dirty_bytes else s.max_dirty_bytes;
      high_watermark = high;
      low_watermark =
          if s.low_watermark == 0 || leb high s.low_watermark
          then default_low_watermark
          else s.low_watermark;
      write_back = s.write_back;
    }

-- `withDefaults`. Making the directory's name absolute is left out.
unfoldable pub with_defaults : Settings → Settled
unfolding filled_in
with_defaults s =
    let cfg = filled_in s in
    if not s.has_dir
    then unusable no_dir
    else if ltb cfg.max_bytes cfg.max_dirty_bytes
    then unusable dirty_above_total
    else if s.write_back && not s.has_upstream
    then unusable no_upstream
    else settled_as cfg

-- A configuration that is accepted has allowances above 0, the one for unsent data within the total,
-- a high watermark between 1 and 100, and a low one above 0; with write-back it has an upstream.
pub with_defaults-sane :
    (s : Settings) (cfg : Config)
    → with_defaults s ≡ settled_as cfg
    → (0 < cfg.max_dirty_bytes)
      × (cfg.max_dirty_bytes ≤ cfg.max_bytes)
      × (0 < cfg.high_watermark)
      × (cfg.high_watermark ≤ 100)
      × (0 < cfg.low_watermark)
      × (cfg.write_back ≡ true → s.has_upstream ≡ true)
unfolding with_defaults
with_defaults-sane s cfg h = ground arith

doom_nothing :
    (low freed : ℕ) (c : Cache) → leb freed low ≡ true → doom low freed (candidates c) ≡ []
unfolding doom
doom_nothing low freed c h = elim (candidates c) as (λ os. doom low freed os ≡ []) [
  | [] ↦ refl
  | (o ∷ os) ↦ rw (h, doom) refl
]

evict_nothing : (d : Digest) (c : Cache) → leb c.bytes (low_mark c) ≡ true → evict_if_needed d c ≡ c
unfolding evict_if_needed victims forget_all
evict_nothing d c h =
    if_intro (λ (x : Cache). x ≡ c) (leb c.bytes (high_mark c)) c (forget_all d (victims c) c) refl
      (ap (λ ps. forget_all d ps c) (doom_nothing (low_mark c) c.bytes c h))

-- Settings with a directory, allowances of which the one for unsent data is not above the total, an
-- upstream, a high watermark of at most 70 percent and no low one are accepted. In a gateway that runs
-- with them, a cache of more bytes than the high watermark allows and of at most 70 percent of the
-- total is above its high mark, and an eviction takes nothing away.
pub default_low_stalls :
    (d : Digest) (s : Settings) (c : Cache)
    → s.has_dir ≡ true
    → s.has_upstream ≡ true
    → 0 < s.max_dirty_bytes
    → s.max_dirty_bytes ≤ s.max_bytes
    → 0 < s.high_watermark
    → s.high_watermark ≤ 70
    → s.low_watermark ≡ 0
    → c.cfg ≡ filled_in s
    → s.max_bytes * s.high_watermark < c.bytes * 100
    → c.bytes * 100 ≤ s.max_bytes * 70
    → (with_defaults s ≡ settled_as c.cfg) × (high_mark c < c.bytes) × (evict_if_needed d c ≡ c)
unfolding with_defaults
default_low_stalls d s c dir up some_dirty fits some_high h l cfg above below =
    let total : c.cfg.max_bytes ≡ s.max_bytes = ap (λ x. x.max_bytes) cfg ∙ ground arith in
    let high : c.cfg.high_watermark ≡ s.high_watermark =
      ap (λ x. x.high_watermark) cfg ∙ ground arith in
    let low : c.cfg.low_watermark ≡ 70 = ap (λ x. x.low_watermark) cfg ∙ ground arith in
    let over : high_mark c < c.bytes = rw (total, high) (omega (arith, above)) in
    let under : c.bytes ≤ low_mark c = rw (total, low) (omega (arith, below)) in
    (
      ground (arith, dir, up, some_dirty, fits) ∙ ap settled_as (sym cfg),
      over,
      evict_nothing d c (ground (arith, under)),
    )
