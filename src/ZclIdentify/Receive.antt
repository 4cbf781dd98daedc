-- ===== src/ZclIdentify/Receive.antt =====
-- src/zcl_identify.c: zcl_id_rx, which serves the commands of the cluster and passes the global ones
-- on to the dispatcher.
use cc2530_zigbee.Base.{
  ℕ, ◌+◌, ◌/◌, ◌^◌, bit_and, Bool, true, false, ◌&&◌, ◌||◌, ltb, ◌==◌, ◌!=◌, if◌then◌else◌, Option,
  none, some, List, [], ◌∷◌, get_or, take, drop, u8, u16, or_le16, Source, bytes, null,
  source_bytes,
}
use cc2530_zigbee.ZclFrame
use cc2530_zigbee.ZclFrame.{Result, ok, invalid_argument, unsupported_context, Header, FrameInfo}
use cc2530_zigbee.ZclAttributes.{Attribute, AttributeSet}
use cc2530_zigbee.ZclWrite
use cc2530_zigbee.ZclWrite.{Edit, Output}
use cc2530_zigbee.ZclDispatch.{blank, Answer, written, replied, is_write, dispatch}
use cc2530_zigbee.ZclIdentify.{Identify, advance}

-- The two attributes, IdentifyTime and ClusterRevision.
abbrev pub attributes_of : Identify → List Attribute
attributes_of next =
    record {
      id = 0;
      readable = 1;
      value = record {
        type = 0x21;
        string_non_value = 0;
        data_source = bytes (u8 next.remaining ∷ u8 (next.remaining / 2 ^ 8) ∷ []);
      };
    }
    ∷ record {
      id = 0xfffd;
      readable = 1;
      value = record { type = 0x21; string_non_value = 0; data_source = bytes (2 ∷ 0 ∷ []) };
    }
    ∷ []

abbrev pub set_of : Identify → AttributeSet
set_of next = record {
  attributes = some (attributes_of next);
  count = 2;
  side = 0;
  manufacturer_specific = 0;
  manufacturer_code = 0;
}

-- `edit` with its id. What is not yet set of it, `zcl_wr_handle` sets.
abbrev pub time_edit : Edit
time_edit = record { id = 0; value = 0; written = 0 }

unfoldable pub edited : Identify → Option Edit → Identify
edited next none = next
edited next (some e) =
    if e.written != 0 then record next { remaining = e.value; phase = 0 } else next

-- The answer of zcl_wr_handle and the context after it.
unfoldable pub time_written : Identify → Result × Option Output → Answer × Identify
time_written next (ok, some o) = (written (ok, some o), edited next o.edit)
time_written next (r, o) = (written (r, o), next)

-- `global`: the answer and `*next`
unfoldable pub global : Identify → List ℕ → FrameInfo → ℕ → Answer × Identify
global next request frame capacity =
    if frame.header.type == 0
      && bit_and frame.header.flags 0x04 == 0
      && is_write frame.header.command_id
    then time_written next (
        ZclWrite.handle (attributes_of next) frame (drop frame.payload_offset request) capacity
          (some time_edit))
    else (
      dispatch (some (set_of next))
          (bytes (take (u16 (frame.payload_offset + frame.payload_length)) request)) true capacity,
      next,
    )

-- `reply` to a command of the cluster
abbrev pub own_reply : Header → ℕ → ℕ → Header
own_reply h type command = record h { type = type; flags = 0x18; command_id = command }

-- The default response to a command of the cluster.
unfoldable pub own_default : FrameInfo → ℕ → ℕ → Answer
own_default frame status capacity =
    replied
      (record (blank frame.header.sequence) {
        command_id = 0x0b;
        default_command = frame.header.command_id;
        default_status = status;
        default_raw_status = status;
      })
      (ZclFrame.encode true (own_reply frame.header 0 0x0b)
        (bytes (frame.header.command_id ∷ status ∷ [])) capacity)

abbrev pub silent : FrameInfo → Answer
silent frame = (ok, some (none, record (blank frame.header.sequence) { kind = 2 }))

-- The Identify command.
unfoldable pub identify : Identify → List ℕ → FrameInfo → ℕ → Answer × Identify
identify next input frame capacity =
    if ltb frame.payload_length 2
    then (own_default frame 0x80 capacity, next)
    else let started = record next {
      remaining = or_le16 (get_or input 0 0) (get_or input 1 0);
      phase = 0;
    } in
      if bit_and frame.header.flags 0x10 != 0
      then (silent frame, started)
      else (own_default frame 0 capacity, started)

-- The Identify Query command.
unfoldable pub query : Identify → FrameInfo → ℕ → Answer
query next frame capacity =
    if next.remaining == 0
    then silent frame
    else replied (blank frame.header.sequence) (
        ZclFrame.encode true (own_reply frame.header 1 0)
          (bytes (u8 next.remaining ∷ u8 (next.remaining / 2 ^ 8) ∷ [])) capacity)

-- After the request has been decoded.
unfoldable pub serve : Identify → List ℕ → FrameInfo → ℕ → Answer × Identify
unfolding global identify
serve next request frame capacity =
    if bit_and frame.header.flags 0x08 != 0
    then ((unsupported_context, none), next)
    else if frame.header.type != 1
        || bit_and frame.header.flags 0x04 != 0
        || ltb 1 frame.header.command_id
    then global next request frame capacity
    else if frame.header.command_id == 0
    then identify next (drop frame.payload_offset request) frame capacity
    else (query next frame capacity, next)

unfoldable pub serve_decoded : Identify → List ℕ → ℕ → Result × Option FrameInfo → Answer × Identify
serve_decoded next request capacity (ok, some frame) = serve next request frame capacity
serve_decoded next request capacity (ok, none) = ((ok, none), next)
serve_decoded next request capacity (r, o) = ((r, none), next)

-- `*ctx = next`, when all calls have answered ok
unfoldable pub commit : Identify → Answer × Identify → Answer × Identify
commit c ((ok, o), next) = ((ok, o), next)
commit c ((r, o), next) = ((r, none), c)

unfoldable pub rx_advanced : Identify → Source → ℕ → Result × Option Identify → Answer × Identify
unfolding commit serve_decoded
rx_advanced c request capacity (ok, some next) =
    commit c (serve_decoded next (source_bytes request) capacity (ZclFrame.decode request true))
rx_advanced c request capacity (ok, none) = ((ok, none), c)
rx_advanced c request capacity (r, o) = ((r, none), c)

-- `zcl_id_rx` on a context that is not NULL: `outputs` says that the response and the info are not
-- NULL. It answers with the context that it leaves.
unfoldable pub rx : Identify → ℕ → Source → Bool → ℕ → Answer × Identify
rx c now (null n) outputs capacity = ((invalid_argument, none), c)
rx c now (bytes request) false capacity = ((invalid_argument, none), c)
rx c now (bytes request) true capacity = rx_advanced c (bytes request) capacity (advance c now)
