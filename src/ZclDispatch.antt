-- ===== src/ZclDispatch.antt =====
-- src/zcl_dispatch.c: the dispatch of a unicast ZCL command to one attribute set.
pub mod Discover
pub mod Ascending
pub mod Listed
pub mod Reply
mod Served
pub mod Replies
mod Tests
use cc2530_zigbee.Base.{
  ℕ, ◌+◌, ◌-◌, ◌^◌, ◌⊎◌, inl, inr, bit_and, bit_or, bit_xor, Bool, true, false, ◌&&◌, ◌||◌, not,
  ltb, leb, ◌==◌, ◌!=◌, if◌then◌else◌, Option, none, some, List, [], ◌∷◌, length, get_or, drop, u8,
  Source, bytes, null, source_bytes,
}
use cc2530_zigbee.ZclFrame
use cc2530_zigbee.ZclFrame.{
  Result, ok, invalid_argument, truncated, buffer_too_small, unsupported_layout,
  unsupported_context, unsupported_no_response, Header, FrameInfo, size_of,
}
use cc2530_zigbee.ZclAttributes.{
  AttributeSet, Attribute, ReadInfo, check_set, read_attrs, reply_header, declared, budget_of,
}
use cc2530_zigbee.ZclWrite
use cc2530_zigbee.ZclWrite.{Output}
use cc2530_zigbee.ZclDispatch.Discover.{Listing, records_of, discover_all}

-- `zcl_dispatch_info_t`
pub record DispatchInfo : Type 0 where
  pub kind : ℕ
  pub length : ℕ
  pub command_id : ℕ
  pub sequence : ℕ
  pub requested_count : ℕ
  pub returned_count : ℕ
  pub discovery_complete : ℕ
  pub default_command : ℕ
  pub default_status : ℕ
  pub default_raw_status : ℕ

-- The candidate with its sequence number.
abbrev pub blank : ℕ → DispatchInfo
blank sequence = record {
  kind = 0;
  length = 0;
  command_id = 0;
  sequence = sequence;
  requested_count = 0;
  returned_count = 0;
  discovery_complete = 0;
  default_command = 0;
  default_status = 0;
  default_raw_status = 0;
}

-- What a successful call stores: the response, if it stores one, and the info.
abbrev pub Answer : Type 0
Answer = Result × Option (Option (List ℕ) × DispatchInfo)

unfoldable pub normalized_status : ℕ → ℕ
normalized_status status =
    if leb 0x82 status && leb status 0x84
    then 0x81
    else if status == 0x8a || status == 0xc4
    then 0
    else if status == 0x8f
    then 0x7e
    else if status == 0x90 || status == 0x91 || status == 0x93 || status == 0xc0 || status == 0xc1
    then 1
    else status

-- A received Default Response, by its payload.
unfoldable pub default_received : AttributeSet → FrameInfo → List ℕ → Bool → Answer
default_received s frame payload context =
    if not context
    then (unsupported_context, none)
    else if ltb frame.payload_length 2
    then (truncated, none)
    else if s.manufacturer_specific != 0 && frame.payload_length != 2
    then (unsupported_layout, none)
    else (
      ok,
      some (
        none,
        record (blank frame.header.sequence) {
          kind = 1;
          command_id = 0x0b;
          default_command = get_or payload 0 0;
          default_raw_status = get_or payload 1 0;
          default_status = normalized_status (get_or payload 1 0);
        },
      ),
    )

-- The info that zcl_wr_handle leaves in the candidate.
unfoldable pub written : Result × Option Output → Answer
written (ok, some o) = (
  ok,
  some (
    o.response,
    record {
      kind = o.info.kind;
      length = o.info.length;
      command_id = o.info.command_id;
      sequence = o.info.sequence;
      requested_count = o.info.requested_count;
      returned_count = o.info.returned_count;
      discovery_complete = 0;
      default_command = o.info.default_command;
      default_status = o.info.default_status;
      default_raw_status = o.info.default_status;
    },
  ),
)
written (ok, none) = (ok, none)
written (r, o) = (r, none)

-- The candidate after zcl_read_attrs_unicast; ZCL_COMMAND_READ_ATTRIBUTES is 0.
unfoldable pub attributes_read : FrameInfo → Result × Option (List ℕ × ReadInfo) → Answer
attributes_read frame (ok, some (response, r)) = (
  ok,
  some (
    some response,
    record (blank frame.header.sequence) {
      command_id = r.command_id;
      length = r.length;
      requested_count = r.requested_count;
      returned_count = r.returned_count;
      default_status = if r.command_id == 0x0b then 0x80 else 0;
      default_raw_status = if r.command_id == 0x0b then 0x80 else 0;
    },
  ),
)
attributes_read frame (ok, none) = (ok, none)
attributes_read frame (r, o) = (r, none)

-- A response by the answer of `zcl_frame_encode`, with the rest of the info.
unfoldable pub replied : DispatchInfo → Result × Option (List ℕ) → Answer
replied info (ok, some response) =
    (ok, some (some response, record info { length = length response }))
replied info (ok, none) = (ok, none)
replied info (r, o) = (r, none)

-- `reply`, whose type is global
abbrev pub global_reply : Header → ℕ → Header
global_reply h command = record (reply_header h command) { type = 0 }

-- The end of `zcl_dispatch_unicast`: a Default Response with the status `error[1]`.
unfoldable pub default_reply : FrameInfo → ℕ → ℕ → Answer
default_reply frame status capacity =
    replied
      (record (blank frame.header.sequence) {
        command_id = 0x0b;
        default_command = frame.header.command_id;
        default_status = status;
        default_raw_status = status;
      })
      (ZclFrame.encode true (global_reply frame.header 0x0b)
        (bytes (frame.header.command_id ∷ status ∷ [])) capacity)

-- `discover` behind its loop; `requested` is `request[2]`.
unfoldable pub discovered : FrameInfo → ℕ → ℕ → Option (Result ⊎ Listing) → Answer
discovered frame requested capacity (some (inr l)) =
    replied
      (record (blank frame.header.sequence) {
        requested_count = requested;
        discovery_complete = l.complete;
        returned_count = l.count;
        command_id = 0x0d;
      })
      (ZclFrame.encode true (global_reply frame.header 0x0d)
        (bytes (l.complete ∷ records_of l.listed)) capacity)
discovered frame requested capacity (some (inl r)) = (r, none)
discovered frame requested capacity none = (truncated, none)

-- `discover`
unfoldable pub discover : AttributeSet → FrameInfo → List ℕ → ℕ → Answer
discover s frame request capacity =
    let flags = (global_reply frame.header 0x0d).flags in
    if ltb (budget_of capacity) (size_of flags + 1)
    then (buffer_too_small, none)
    else discovered frame (get_or request 2 0) capacity
        (discover_all (declared s.attributes s.count) request flags capacity)

-- The Discover Attributes command.
unfoldable pub discover_command : AttributeSet → FrameInfo → List ℕ → ℕ → Answer
discover_command s frame payload capacity =
    if ltb frame.payload_length 3
    then default_reply frame 0x80 capacity
    else if s.manufacturer_specific != 0 && frame.payload_length != 3
    then (unsupported_layout, none)
    else discover s frame payload capacity

-- `context_matches`
abbrev pub context_matches : AttributeSet → Header → Bool
context_matches s h =
    (if bit_and h.flags 0x04 != 0 then 1 else 0) == s.manufacturer_specific
    && (s.manufacturer_specific == 0 || h.manufacturer_code == s.manufacturer_code)

abbrev pub is_write : ℕ → Bool
is_write command = command == 2 || command == 3 || command == 5

-- `zcl_dispatch_unicast` after the request has been decoded
unfoldable pub dispatch_frame : AttributeSet → List ℕ → ℕ → FrameInfo → Answer
dispatch_frame s request capacity frame =
    let h = frame.header in
    let context = context_matches s h in
    let payload = drop frame.payload_offset request in
    if (if bit_and h.flags 0x08 != 0 then 1 else 0) != s.side
    then (unsupported_context, none)
    else if h.type == 0 && h.command_id == 0x0b
    then default_received s frame payload context
    else if context && h.type == 0 && is_write h.command_id
    then written (ZclWrite.handle (declared s.attributes s.count) frame payload capacity none)
    else if h.type == 0 && h.command_id == 5
    then (unsupported_no_response, none)
    else if context && h.type == 0 && h.command_id == 0
    then attributes_read frame (read_attrs (some s) (bytes request) true capacity)
    else if context && h.type == 0 && h.command_id == 0x0c
    then discover_command s frame payload capacity
    else default_reply frame 0x81 capacity

unfoldable pub dispatch_decoded : AttributeSet → Source → ℕ → Result × Option FrameInfo → Answer
dispatch_decoded s request capacity (ok, some frame) =
    dispatch_frame s (source_bytes request) capacity frame
dispatch_decoded s request capacity (ok, none) = (ok, none)
dispatch_decoded s request capacity (r, o) = (r, none)

unfoldable pub dispatch_checked : AttributeSet → Source → ℕ → Result → Answer
dispatch_checked s request capacity ok =
    dispatch_decoded s request capacity (ZclFrame.decode request true)
dispatch_checked s request capacity r = (r, none)

-- `zcl_dispatch_unicast`: `outputs` says that the response and the info are not NULL.
unfoldable pub dispatch : Option AttributeSet → Source → Bool → ℕ → Answer
dispatch (some s) (bytes request) true capacity =
    dispatch_checked s (bytes request) capacity (check_set (some s))
dispatch _ _ _ capacity = (invalid_argument, none)
