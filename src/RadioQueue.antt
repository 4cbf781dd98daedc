-- ===== src/RadioQueue.antt =====
-- src/radio_queue.c: the requests from interrupts, the two received frames and the one to be sent.
-- What the interrupt controller and the receiver answer are arguments of the calls that use them.
pub mod Fifo
pub mod Frames
mod Tests
use cc2530_zigbee.Base.{
  ℕ, zero, suc, ◌+◌, ◌-◌, ◌*◌, ◌^◌, bit_and, bit_xor, Bool, true, false, ◌&&◌, ◌||◌, not, ltb, leb,
  ◌==◌, ◌!=◌, if◌then◌else◌, Option, none, some, List, [], ◌∷◌, length, get_or, set, take,
  replicate, u8, sub8,
}

-- `radio_queue_result_t`
pub data Result : Type 0 where
  ok invalid_argument buffer_ownership empty full irq_active bad_crc radio_failed : Result
  corrupt irq_failed : Result

abbrev pub is_ok : Result → Bool
is_ok ok = true
is_ok _ = false

-- `radio_rx_frame_t`
pub record Frame : Type 0 where
  pub length : ℕ
  pub rssi_raw : ℕ
  pub correlation : ℕ
  pub body : List ℕ

abbrev pub max_body : ℕ
max_body = 125

-- The module's variables; the fault `ok` is 0.
pub record Queue : Type 0 where
  pub fault : Result
  pub event_head : ℕ
  pub event_tail : ℕ
  pub events : List ℕ
  pub dropped : ℕ
  pub rx : List Frame
  pub rx_head : ℕ
  pub rx_tail : ℕ
  pub rx_count : ℕ
  pub tx_length : ℕ
  pub tx_body : List ℕ
  pub tx_count : ℕ
  pub cancelled : ℕ
  pub crc_errors : ℕ
  pub last_cookie : ℕ
  pub driver_valid : Bool
  pub driver_result : ℕ

-- `latch`
unfoldable pub latch : Result → Queue → Result × Queue
latch r q = if is_ok q.fault then (r, record q { fault = r }) else (q.fault, q)

-- The number of requests that wait.
abbrev pub waiting : Queue → ℕ
waiting q = sub8 q.event_head q.event_tail

-- `rx_valid`
abbrev pub rx_valid : Queue → Bool
rx_valid q =
    ltb q.rx_head 2
    && ltb q.rx_tail 2
    && leb q.rx_count 2
    && q.rx_tail == bit_and (q.rx_head + q.rx_count) 1

-- `radio_queue_request_rx` between the two calls of the interrupt controller
unfoldable pub enqueue : ℕ → Queue → Result × Queue
enqueue cookie q =
    if not (is_ok q.fault)
    then (q.fault, q)
    else if ltb 4 (waiting q)
    then (corrupt, record q { fault = corrupt })
    else if waiting q == 4
    then (full, record q { dropped = if q.dropped != 255 then u8 (q.dropped + 1) else q.dropped })
    else (
      ok,
      record q {
        events = set q.events (bit_and q.event_head 3) cookie;
        event_head = u8 (q.event_head + 1);
      },
    )

-- What follows `irq_restore`, which answers IRQ_OK if `restored`.
unfoldable pub restore : Bool → Result × Queue → Result × Queue
restore true (r, q) = (r, q)
restore false (r, q) = latch irq_failed q

-- `radio_queue_request_rx`
unfoldable pub request_rx : ℕ → Bool → Queue → Result × Queue
request_rx cookie restored q =
    if not (is_ok q.fault) then (q.fault, q) else restore restored (enqueue cookie q)

-- RADIO_RX_OK and RADIO_RX_BAD_CRC
abbrev pub rx_ok : ℕ
rx_ok = 0

abbrev pub rx_bad_crc : ℕ
rx_bad_crc = 15

-- `radio_queue_service` after the receiver's answer
unfoldable pub received : ℕ → Queue → Result × Queue
received result q =
    if result == rx_bad_crc
    then (
      bad_crc,
      record q { crc_errors = if q.crc_errors != 255 then u8 (q.crc_errors + 1) else q.crc_errors },
    )
    else if result != rx_ok
    then latch radio_failed q
    else (ok, record q { rx_tail = bit_xor q.rx_tail 1; rx_count = u8 (q.rx_count + 1) })

-- `radio_queue_service`: `active` says that an interrupt enable register is not 0, and the
-- receiver answers `result` and leaves `frame` in the slot.
unfoldable pub service : ℕ → ℕ → ℕ → Bool → ℕ → Frame → Queue → Result × Queue
service channel timeout limit active result frame q =
    if not (is_ok q.fault)
    then (q.fault, q)
    else if ltb channel 11 || ltb 26 channel || timeout == 0 || leb 0x00800000 timeout || limit == 0
    then (invalid_argument, q)
    else if not (rx_valid q) || ltb 4 (waiting q)
    then latch corrupt q
    else if waiting q == 0
    then (empty, q)
    else if q.rx_count == 2
    then (full, q)
    else if active
    then (irq_active, q)
    else received result (record q {
      last_cookie = get_or q.events (bit_and q.event_tail 3) 0;
      event_tail = u8 (q.event_tail + 1);
      rx = set q.rx q.rx_tail frame;
      driver_result = result;
      driver_valid = true;
    })

-- A slot that was never written.
abbrev pub blank : Frame
blank = record { length = 0; rssi_raw = 0; correlation = 0; body = [] }

-- What is copied of a slot to the output.
abbrev pub copied : Frame → Frame
copied f = record f { body = take f.length f.body }

-- `radio_queue_rx_read` from its checks of the output on
unfoldable pub read_slot : Queue → Result × Option Frame × Queue
read_slot q =
    if not (rx_valid q)
    then (let (r, d) = latch corrupt q in (r, none, d))
    else if q.rx_count == 0
    then (empty, none, q)
    else (let f = get_or q.rx q.rx_head blank in
        if f.length == 0 || ltb max_body f.length
        then (let (r, d) = latch corrupt q in (r, none, d))
        else (
          ok,
          some (copied f),
          record q { rx_head = bit_xor q.rx_head 1; rx_count = q.rx_count - 1 },
        ))

-- `radio_queue_tx_cancel`
unfoldable pub tx_cancel : Queue → Result × Queue
tx_cancel q =
    if ltb 1 q.tx_count
    then latch corrupt q
    else if q.tx_count == 0
    then (empty, q)
    else (ok, record q { tx_count = 0 })

-- `radio_queue_cancel_requests` between the two calls of the interrupt controller, and as a whole
unfoldable pub drop_requests : Queue → Result × Queue
drop_requests q = if ltb 4 (waiting q) then latch corrupt q else (
  ok,
  record q {
    event_tail = q.event_head;
    cancelled = if ltb (255 - q.cancelled) (waiting q) then 255 else q.cancelled + waiting q;
  },
)

unfoldable pub cancel_requests : Bool → Queue → Result × Queue
cancel_requests restored q = restore restored (drop_requests q)

-- `radio_queue_status_t`
pub record Status : Type 0 where
  pub fault : Result
  pub driver_result : ℕ
  pub last_cookie : ℕ
  pub requests : ℕ
  pub dropped : ℕ
  pub cancelled : ℕ
  pub rx_count : ℕ
  pub tx_count : ℕ
  pub crc_errors : ℕ

-- `snapshot`, as `radio_queue_snapshot` fills it
abbrev pub status_of : Queue → Status
status_of q = record {
  fault = q.fault;
  driver_result = if q.driver_valid then q.driver_result else 255;
  last_cookie = q.last_cookie;
  requests = waiting q;
  dropped = q.dropped;
  cancelled = q.cancelled;
  rx_count = q.rx_count;
  tx_count = q.tx_count;
  crc_errors = q.crc_errors;
}

-- The linker's addresses of `radio_queue_reserved_end` and `_gptrput_PARM_2`
module _ (reserved_end helper : ℕ) where
  -- `caller`
  unfoldable pub caller : ℕ → ℕ → Bool
  caller address size =
      ltb reserved_end address
      && ltb address 0x1e00
      && leb size (0x1e00 - address)
      && not (leb address helper && ltb (helper - address) size)

  -- `radio_queue_rx_read`: the address of the output, none for NULL
  unfoldable pub rx_read : Option ℕ → Queue → Result × Option Frame × Queue
  unfolding read_slot
  rx_read none q = (invalid_argument, none, q)
  rx_read (some address) q =
      if not (caller address 128) then (buffer_ownership, none, q) else read_slot q

  -- `radio_queue_tx_submit`: the address and the bytes of the body, none for NULL
  unfoldable pub tx_submit : Option (ℕ × List ℕ) → ℕ → Queue → Result × Queue
  tx_submit none count q = (if is_ok q.fault then invalid_argument else q.fault, q)
  tx_submit (some (address, body)) count q =
      if not (is_ok q.fault)
      then (q.fault, q)
      else if count == 0 || ltb max_body count
      then (invalid_argument, q)
      else if not (caller address count)
      then (buffer_ownership, q)
      else if ltb 1 q.tx_count
      then latch corrupt q
      else if q.tx_count != 0
      then (full, q)
      else (ok, record q { tx_body = take count body; tx_length = count; tx_count = 1 })

  -- `radio_queue_tx_read`: the bytes copied are the list; its length is `output->length`.
  unfoldable pub tx_read : Option ℕ → Queue → Result × Option (List ℕ) × Queue
  tx_read none q = (invalid_argument, none, q)
  tx_read (some address) q =
      if not (caller address 126)
      then (buffer_ownership, none, q)
      else if ltb 1 q.tx_count
      then (let (r, d) = latch corrupt q in (r, none, d))
      else if q.tx_count == 0
      then (empty, none, q)
      else if q.tx_length == 0 || ltb max_body q.tx_length
      then (let (r, d) = latch corrupt q in (r, none, d))
      else (ok, some (take q.tx_length q.tx_body), record q { tx_count = 0 })

  -- `radio_queue_snapshot`: the address of the output, none for NULL
  unfoldable pub snapshot : Option ℕ → Bool → Queue → Result × Option Status × Queue
  snapshot none restored q = (invalid_argument, none, q)
  snapshot (some address) restored q =
      if not (caller address 9)
      then (buffer_ownership, none, q)
      else if restored
      then (ok, some (status_of q), q)
      else (let (r, d) = latch irq_failed q in (r, none, d))
