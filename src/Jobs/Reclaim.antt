-- ===== src/Jobs/Reclaim.antt =====
-- The records that the engine gives back (`reclaim` of internal/jobs/engine.go).
use opendrive_bridge.Common.{◌≡◌, ◌↔◌, ap, Bool, false, [], ◌∷◌, arith}
use opendrive_bridge.Common.Text.{Text, is_empty}
use opendrive_bridge.Jobs.Types.{Job}
use opendrive_bridge.Jobs.Engine.{
  InfoAnswer, not_there, unreadable, record_found, record_is_whole_file, asked, reclaim,
}

-- The deletion of a record is asked for where, and only where, the job has one, was not told to
-- overwrite, and upstream shows the record with no hash and no bytes.
pub reclaim_only_empty :
    (sh : Text → Text → Bool) (info : InfoAnswer) (j : Job)
    → (reclaim sh info j ≡ asked) ↔ (
        (is_empty j.upstream_file_id ≡ false)
        × (j.spec.overwrite ≡ false)
        × (info ≡ record_found [] 0))
unfolding reclaim record_is_whole_file
reclaim_only_empty sh not_there j = (λ h. absurd (ground (arith, h)), λ h. absurd (cc h.2))
reclaim_only_empty sh unreadable j = (λ h. absurd (ground (arith, h)), λ h. absurd (cc h.2))
reclaim_only_empty sh (record_found [] size) j = (
  λ h. (ground (arith, h), ground (arith, h), ap (record_found []) (ground (arith, h))),
  λ h. ground (arith, h.0, h.1, h.2),
)
reclaim_only_empty sh (record_found (c ∷ hash) size) j =
    (λ h. absurd (ground (arith, h)), λ h. absurd (cc h.2))
