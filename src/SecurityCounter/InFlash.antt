-- ===== src/SecurityCounter/InFlash.antt =====
-- src/security_counter.c on src/nv_record.c: the counters over the journal that two pages keep.
use cc2530_zigbee.Base.{ℕ, ◌≤◌, List}
use cc2530_zigbee.NvRecord.Flash.{Flash}
use cc2530_zigbee.NvRecord.Implementation.{Store, journal}
use cc2530_zigbee.NvRecord.Replacing.{DetectsTears}
use cc2530_zigbee.SecurityCounter.Operations.{boot}
use cc2530_zigbee.SecurityCounter.Run.{Call, RisesFrom, handed_out, handed_out-RisesFrom}

-- On any flash with the laws of NvRecord/Flash, where a scan detects what a failed erase leaves of
-- its page if it leaves it changed, from any content of the two pages, whatever the flash answers to
-- its calls, and with resets between any calls, the values handed out in a domain by the counters on
-- the journal of src/nv_record.c rise strictly and stay below the maximum of uint32_t.
pub handed_out-journal :
    (F : Flash) (detects : DetectsTears F) (reserved_end journal_end address domain : ℕ)
    (xs : List Call) (s : Store F)
    → domain ≤ 1
    → RisesFrom 0
        (handed_out reserved_end domain xs (boot (journal F detects journal_end address) s))
handed_out-journal F detects reserved_end journal_end address domain xs s le =
    handed_out-RisesFrom reserved_end domain xs (journal F detects journal_end address) s le
