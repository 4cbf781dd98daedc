-- ===== src/SecurityCounter/Operations.antt =====
-- The entry points of src/security_counter.c, over the journal's calls. `reserved_end` is the
-- address of `security_counter_reserved_end`, which the linker chooses.
use cc2530_zigbee.Base.{
  ℕ, ◌+◌, ◌-◌, ◌*◌, Bool, true, false, ◌&&◌, ◌||◌, not, ltb, ◌==◌, ◌!=◌, if◌then◌else◌, Option,
  none, some, List, [], ◌∷◌, length, get_or, take, drop, replicate, u32, encode32,
}
use cc2530_zigbee.NvRecord
use cc2530_zigbee.NvRecord.{max_record}
use cc2530_zigbee.NvRecord.Journal.{Journal}
use cc2530_zigbee.SecurityCounter.Defs.{
  Result, ok, empty, argument, ownership, state, format, version, recovery, nv, exhausted, space,
  cold, unprovisioned, ready, failed, range, payload_max, top, at, put, is_state, nv_ok, nv_empty,
  nv_recovered, loaded, caller, payload, Counter, finish, fail, ready_result, floors, current,
  commit,
}

-- A caller's object: its address and the bytes there.
pub record Object : Type 0 where
  pub address : ℕ
  pub bytes : List ℕ

-- `data == NULL`, and what lies behind a pointer that is not
abbrev pub is_null : Option Object → Bool
is_null none = true
is_null (some o) = false

abbrev pub address_of : Option Object → ℕ
address_of none = 0
address_of (some o) = o.address

abbrev pub bytes_of : Option Object → List ℕ
bytes_of none = []
bytes_of (some o) = o.bytes

-- The argument checks that `stage` and `security_counter_save` share.
unfoldable pub refused : ℕ → Option Object → ℕ → ℕ → Option Result
refused reserved_end source length limit =
    if ltb payload_max length || (is_null source && length != 0) || limit == 0
    then some argument
    else if length != 0 && not (caller reserved_end (address_of source) length)
    then some ownership
    else none

-- `end` of `security_counter_take`
abbrev pub range_end : ℕ → ℕ
range_end until = if ltb (top - range) until then top else until + range

-- The state after a reset, before `security_counter_open`.
unfoldable pub boot : (j : Journal) → Journal.Store j → Counter j
boot j s = record {
  next = record { nwk = 0; aps = 0 };
  until = record { nwk = 0; aps = 0 };
  generation = 0;
  state = cold;
  result = ok;
  nv_result = NvRecord.Result.ok;
  payload_length = 0;
  blob = replicate max_record 0;
  store = s;
}

module _ {j : Journal} where
  -- The checks of the record's first eight bytes in `security_counter_open`.
  unfoldable pub check_format : Counter j → Result
  check_format c =
      if ltb (Journal.record_length j c.store) 16
        || get_or c.blob 0 0 != 0x43
        || get_or c.blob 1 0 != 0x54
        || get_or c.blob 2 0 != 0x52
        || get_or c.blob 3 0 != 0x31
      then format
      else if get_or c.blob 4 0 != 1
      then version
      else if ltb payload_max (get_or c.blob 5 0)
          || Journal.record_length j c.store != 16 + get_or c.blob 5 0
          || get_or c.blob 6 0 != 0
          || get_or c.blob 7 0 != 0
      then format
      else ok

  unfoldable pub adopt : Result → Counter j → Result × Counter j
  adopt ok c =
      let f = floors c in
      finish ok (record f {
        generation = Journal.generation j c.store;
        payload_length = get_or c.blob 5 0;
        state = ready;
      })
  adopt r c = fail r c

  -- `security_counter_open` after its load
  unfoldable pub opened : Counter j → Result × Counter j
  opened c =
      if nv_empty c.nv_result
      then finish empty (record c { state = unprovisioned })
      else if not (nv_ok c.nv_result)
      then fail (if nv_recovered c.nv_result then recovery else nv) c
      else adopt (check_format c) c

  -- `security_counter_open`
  unfoldable pub start : Counter j → Result × Counter j
  start c =
      if is_state c.state failed
      then (c.result, c)
      else if not (is_state c.state cold)
      then (state, c)
      else (let (r, bytes, s) = Journal.load j c.store in
          opened (record c { nv_result = r; blob = loaded bytes c.blob; store = s }))

  -- The header and the floors that `security_counter_create` writes once `stage` has accepted.
  unfoldable pub write_header : ℕ → ℕ → Result × Counter j → Result × Counter j
  write_header nwk_floor aps_floor (ok, c) = (
    ok,
    floors (record c {
      blob =
          encode32
            (encode32 (0x43 ∷ 0x54 ∷ 0x52 ∷ 0x31 ∷ 1 ∷ get_or c.blob 5 0 ∷ 0 ∷ 0 ∷ drop 8 c.blob) 8
              nwk_floor)
            12 aps_floor;
    }),
  )
  write_header nwk_floor aps_floor (r, c) = (r, c)

  -- The value of a range is handed out: `*value` is the option.
  unfoldable pub issue : ℕ → Counter j → Result × Option ℕ × Counter j
  issue domain c = (
    ok,
    some (at c.next domain),
    record c { next = put c.next domain (u32 (at c.next domain + 1)); result = ok },
  )

  unfoldable pub enlarged : ℕ → ℕ → Result × Counter j → Result × Option ℕ × Counter j
  enlarged domain end (ok, c) = issue domain (record c { until = put c.until domain end })
  enlarged domain end (r, c) = (r, none, c)

  unfoldable pub enlarge : ℕ → ℕ → Result × Counter j → Result × Option ℕ × Counter j
  enlarge domain limit (ok, c) = enlarged domain (range_end (at c.until domain)) (
      commit limit
        (record c { blob = encode32 c.blob (8 + 4 * domain) (range_end (at c.until domain)) }))
  enlarge domain limit (r, c) = (r, none, c)

  -- `security_counter_take` from its refill on
  unfoldable pub draw : ℕ → ℕ → Counter j → Result × Option ℕ × Counter j
  draw domain limit c =
      if at c.next domain == at c.until domain
      then (if at c.until domain == top
          then (exhausted, none, record c { result = exhausted })
          else enlarge domain limit (current c))
      else issue domain c

  unfoldable pub save_current : List ℕ → ℕ → ℕ → Result × Counter j → Result × Counter j
  save_current bytes length limit (ok, c) =
      commit limit (record c { blob = payload c.blob bytes length })
  save_current bytes length limit (r, c) = (r, c)

  -- `stage` after its argument checks: the error that they found, or the payload in the blob
  unfoldable pub stage_unless : Option Result → List ℕ → ℕ → Counter j → Result × Counter j
  stage_unless (some r) bytes length c = (r, c)
  stage_unless none bytes length c =
      finish ok
        (record c { blob = payload c.blob bytes length; payload_length = length; state = ready })

  -- `security_counter_save` after its argument checks
  unfoldable pub save_unless : Option Result → List ℕ → ℕ → ℕ → Counter j → Result × Counter j
  unfolding save_current
  save_unless (some r) bytes length limit c = (r, c)
  save_unless none bytes length limit c = save_current bytes length limit (current c)

  module _ (reserved_end : ℕ) where
    -- `stage`
    unfoldable pub stage : Option Object → ℕ → ℕ → Counter j → Result × Counter j
    unfolding stage_unless
    stage source length limit c =
        stage_unless (refused reserved_end source length limit) (bytes_of source) length c

    -- `security_counter_create`
    unfoldable pub create : ℕ → ℕ → Option Object → ℕ → ℕ → Counter j → Result × Counter j
    create nwk_floor aps_floor source length limit c =
        if is_state c.state failed
        then (c.result, c)
        else if not (is_state c.state unprovisioned)
            && (not (is_state c.state ready) || c.generation != 0)
        then (state, c)
        else write_header nwk_floor aps_floor (stage source length limit c)

    -- `security_counter_restage`
    unfoldable pub restage : Option Object → ℕ → Counter j → Result × Counter j
    restage source length c =
        if not (is_state c.state ready) || c.generation != 0
        then (state, c)
        else stage source length 1 c

    -- `security_counter_take` from its argument checks on, by the answer of `ready()`
    unfoldable pub take_checked :
        ℕ → Option ℕ → ℕ → Result → Counter j → Result × Option ℕ × Counter j
    take_checked domain none limit ok c = (argument, none, c)
    take_checked domain (some address) limit ok c =
        if ltb 1 domain || limit == 0
        then (argument, none, c)
        else if not (caller reserved_end address 4)
        then (ownership, none, c)
        else draw domain limit c
    take_checked domain value limit r c = (r, none, c)

    -- `security_counter_take`: `value` is the address, none for NULL.
    unfoldable pub take_value : ℕ → Option ℕ → ℕ → Counter j → Result × Option ℕ × Counter j
    unfolding take_checked
    take_value domain value limit c = take_checked domain value limit (ready_result c) c

    -- `security_counter_save` from its argument checks on, by the answer of `ready()`
    unfoldable pub save_checked : Option Object → ℕ → ℕ → Result → Counter j → Result × Counter j
    save_checked source length limit ok c =
        save_unless (refused reserved_end source length limit) (bytes_of source) length limit c
    save_checked source length limit r c = (r, c)

    -- `security_counter_save`
    unfoldable pub save : Option Object → ℕ → ℕ → Counter j → Result × Counter j
    unfolding save_checked
    save source length limit c = save_checked source length limit (ready_result c) c

    -- `security_counter_read` from its argument checks on, by the answer of `ready()`
    unfoldable pub read_checked :
        Option Object
        → ℕ
        → Option Object
        → Result
        → Counter j
        → Result × Option (List ℕ) × Counter j
    read_checked target capacity length_out ok c =
        if is_null length_out || (is_null target && capacity != 0)
        then (argument, none, c)
        else if not (caller reserved_end (address_of length_out) 1)
            || (capacity != 0 && not (caller reserved_end (address_of target) capacity))
        then (ownership, none, c)
        else if ltb capacity c.payload_length
        then (space, none, c)
        else (ok, some (take c.payload_length (drop 16 c.blob)), record c { result = ok })
    read_checked target capacity length_out r c = (r, none, c)

    -- `security_counter_read`: the bytes copied to `data`, whose number is `*length`.
    unfoldable pub read :
        Option Object → ℕ → Option Object → Counter j → Result × Option (List ℕ) × Counter j
    unfolding read_checked
    read target capacity length_out c = read_checked target capacity length_out (ready_result c) c
