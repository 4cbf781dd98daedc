-- ===== src/SecurityCounter/Defs.antt =====
-- The state of src/security_counter.c and its static helpers.
use cc2530_zigbee.Base.{
  ℕ, zero, suc, ◌+◌, ◌-◌, Bool, true, false, ◌&&◌, ◌||◌, not, ltb, leb, ◌==◌, ◌!=◌, if◌then◌else◌,
  List, [], ◌∷◌, ◌++◌, length, get_or, set, take, drop, u32, decode32,
}
use cc2530_zigbee.NvRecord
use cc2530_zigbee.NvRecord.{max_record}
use cc2530_zigbee.NvRecord.Journal.{Journal}

-- `security_counter_result_t`
pub data Result : Type 0 where
  ok empty argument ownership state format version recovery nv rollback exhausted space : Result
  pending : Result

-- `security_counter_state_t`
pub data State : Type 0 where
  cold unprovisioned ready failed busy : State

-- `SECURITY_COUNTER_RANGE` and `SECURITY_COUNTER_PAYLOAD_MAX`
abbrev pub range : ℕ
range = 256

abbrev pub payload_max : ℕ
payload_max = max_record - 16

abbrev pub top : ℕ
top = 0xffffffff

-- An array of one number for each domain, 0 for NWK and 1 for APS.
pub record Two : Type 0 where
  pub nwk : ℕ
  pub aps : ℕ

abbrev pub at : Two → ℕ → ℕ
at t domain = if domain == 0 then t.nwk else t.aps

abbrev pub put : Two → ℕ → ℕ → Two
put t domain v = if domain == 0 then record t { nwk = v } else record t { aps = v }

abbrev pub is_state : State → State → Bool
is_state cold cold = true
is_state unprovisioned unprovisioned = true
is_state ready ready = true
is_state failed failed = true
is_state busy busy = true
is_state _ _ = false

-- A test of an `nv_record_result_t` against NV_RECORD_OK, _EMPTY and _RECOVERED.
abbrev pub nv_ok : NvRecord.Result → Bool
nv_ok NvRecord.Result.ok = true
nv_ok _ = false

abbrev pub nv_empty : NvRecord.Result → Bool
nv_empty NvRecord.Result.empty = true
nv_empty _ = false

abbrev pub nv_recovered : NvRecord.Result → Bool
nv_recovered NvRecord.Result.recovered = true
nv_recovered _ = false

abbrev pub nv_recovery_required : NvRecord.Result → Bool
nv_recovery_required NvRecord.Result.recovery_required = true
nv_recovery_required _ = false

-- The first `n` bytes of the two buffers agree.
unfoldable pub same_bytes : ℕ → List ℕ → List ℕ → Bool
same_bytes zero xs ys = true
same_bytes (suc n) xs ys = (get_or xs 0 0 == get_or ys 0 0) && same_bytes n (drop 1 xs) (drop 1 ys)

-- What `nv_record_load` leaves in a buffer that held `old`.
abbrev pub loaded : List ℕ → List ℕ → List ℕ
loaded data' old = data' ++ drop (length data') old

-- `caller`: the object lies above the driver's own data and below 0x1e00.
unfoldable pub caller : ℕ → ℕ → ℕ → Bool
caller reserved_end address size =
    ltb reserved_end address && ltb address 0x1e00 && leb size (0x1e00 - address)

-- The bytes that `payload` stores behind the header: `data[i]`, and 0 from `length` on.
unfoldable pub padded : ℕ → List ℕ → ℕ → List ℕ
padded zero data' length = []
padded (suc n) data' length =
    (if length != 0 then get_or data' 0 0 else 0) ∷ padded n (drop 1 data') (length - 1)

-- `payload`
unfoldable pub payload : List ℕ → List ℕ → ℕ → List ℕ
payload blob data' length = take 16 (set blob 5 length) ++ padded payload_max data' length

module _ (j : Journal) where
  -- `security_counter_diagnostic`, `security_counter_blob` and what is behind the journal's calls.
  pub record Counter : Type 0 where
    pub next : Two
    pub until : Two
    pub generation : ℕ
    pub state : State
    pub result : Result
    pub nv_result : NvRecord.Result
    pub payload_length : ℕ
    pub blob : List ℕ
    pub store : Journal.Store j

module _ {j : Journal} where
  unfoldable pub finish : Result → Counter j → Result × Counter j
  finish r c = (r, record c { result = r })

  unfoldable pub fail : Result → Counter j → Result × Counter j
  fail r c = (r, record c { state = failed; result = r })

  -- `ready()`; the state test of every operation on counters in use
  abbrev pub ready_result : Counter j → Result
  ready_result c =
      if is_state c.state failed then c.result else if is_state c.state ready then ok else state

  -- `floors()`
  unfoldable pub floors : Counter j → Counter j
  floors c =
      let f : Two = record { nwk = decode32 c.blob 8; aps = decode32 c.blob 12 } in
      record c { next = f; until = f }

  -- The tests of `current` after the load into `security_counter_check`.
  unfoldable pub check_loaded : List ℕ → Counter j → Result × Counter j
  check_loaded check c =
      if c.generation == 0
      then (if nv_empty c.nv_result then (ok, c) else fail rollback c)
      else if nv_recovered c.nv_result
      then fail recovery c
      else if not (nv_ok c.nv_result)
      then fail nv c
      else if Journal.generation j c.store != c.generation
          || Journal.record_length j c.store != 16 + c.payload_length
      then fail rollback c
      else if same_bytes (16 + c.payload_length) check c.blob
      then (ok, c)
      else fail rollback c

  -- `current()`: the record in flash is still the one that the blob stands for.
  unfoldable pub current : Counter j → Result × Counter j
  current c =
      let (r, bytes, s) = Journal.load j c.store in
      check_loaded bytes (record c { nv_result = r; store = s })

  -- The tests of `commit` after `nv_record_replace`.
  unfoldable pub check_committed : Counter j → Result × Counter j
  check_committed c =
      if not (nv_ok c.nv_result)
      then fail (if nv_recovery_required c.nv_result then recovery else nv) c
      else if Journal.generation j c.store != u32 (c.generation + 1)
      then fail rollback c
      else finish ok (record c {
        generation = Journal.generation j c.store;
        payload_length = get_or c.blob 5 0;
        state = ready;
      })

  -- `commit(poll_limit)`
  unfoldable pub commit : ℕ → Counter j → Result × Counter j
  commit limit c =
      let (r, s) = Journal.replace j (take (16 + get_or c.blob 5 0) c.blob) limit c.store in
      check_committed (record c { state = busy; result = pending; nv_result = r; store = s })
