-- ===== src/NvRecord/Journal.antt =====
-- What the users of the journal rely on: the calls of include/nv_record.h over an abstract store,
-- and what they do to the record that survives a loss of power.
use cc2530_zigbee.Base.{ℕ, ◌≤◌, ◌≡◌, ◌≢◌, ◌⊎◌, Option, none, some, List, length}
use cc2530_zigbee.NvRecord.{Result, ok, empty, max_record}

pub record Journal : Type 1 where
  -- The flash and the driver's RAM.
  pub Store : Type 0
  -- The record that a load after a reset would find, with its generation.
  pub recorded : Store → Option (ℕ × List ℕ)
  -- `nv_record_load(output, NV_RECORD_MAX)`: the bytes copied to the output are the list.
  pub load : Store → Result × List ℕ × Store
  -- `nv_record_replace(data, length, poll_limit, 0)`
  pub replace : List ℕ → ℕ → Store → Result × Store
  -- The generation and the length of `nv_record_status()`.
  pub generation : Store → ℕ
  pub record_length : Store → ℕ
  -- A reset: the RAM is cleared, the flash stays.
  pub reset : Store → Store
  -- A load leaves the record alone.
  pub load-recorded : (s : Store) → recorded (load s).2 ≡ recorded s
  -- It copies no more than the capacity.
  pub load_fits : (s : Store) → length (load s).1 ≤ max_record
  -- It answers `empty` only without a record, and `ok` only with the record, its bytes and its
  -- generation, which is not 0.
  pub load_empty : (s : Store) → (load s).0 ≡ empty → recorded s ≡ none
  pub load_ok :
      (s : Store)
      → (load s).0 ≡ ok
      → (recorded s ≡ some (generation (load s).2, (load s).1))
        × (record_length (load s).2 ≡ length (load s).1)
        × (generation (load s).2 ≢ 0)
  -- A replacement that answers `ok` has recorded the data under the generation of the status.
  pub replace_ok :
      (data' : List ℕ) (limit : ℕ) (s : Store)
      → (replace data' limit s).0 ≡ ok
      → (recorded (replace data' limit s).1 ≡ some (generation (replace data' limit s).1, data'))
        × (generation (replace data' limit s).1 ≢ 0)
  -- However it ends, the old record or the new one is in force, and never a third.
  pub replace_atomic :
      (data' : List ℕ) (limit : ℕ) (s : Store)
      → (recorded (replace data' limit s).1 ≡ recorded s)
        ⊎ ((g : ℕ) × (recorded (replace data' limit s).1 ≡ some (g, data')))
  pub reset-recorded : (s : Store) → recorded (reset s) ≡ recorded s
