-- ===== src/MacFrame.antt =====
-- src/mac_frame.c: the codec of MAC frames. Here: headers, their shape and their address policy.
pub mod Command
pub mod BeaconFields
pub mod Codec
mod Shape
mod Parts
mod Stored
pub mod Emitted
pub mod RoundTrip
pub mod Commands
mod Tests
use cc2530_zigbee.Base.{
  ℕ, ◌+◌, ◌^◌, bit_and, Bool, true, false, not, ◌&&◌, ◌||◌, ltb, leb, ◌==◌, ◌!=◌, if◌then◌else◌,
  Option, none, some, List, get_or, or_le16,
}

-- `mac_codec_result_t`
pub data Result : Type 0 where
  ok invalid_argument truncated too_long buffer_too_small : Result
  unsupported_type unsupported_version unsupported_security unsupported_addressing : Result
  invalid_header unsupported_command invalid_command unsupported_beacon invalid_beacon : Result

-- `mac_header_t`. The types are MAC_FRAME_BEACON 0, _DATA 1, _ACK 2 and _COMMAND 3, the modes
-- MAC_ADDRESS_NONE 0, _SHORT 2 and _EXTENDED 3.
pub record Header : Type 0 where
  pub type : ℕ
  pub version : ℕ
  pub flags : ℕ
  pub sequence : ℕ
  pub destination_mode : ℕ
  pub source_mode : ℕ
  pub destination_pan : ℕ
  pub source_pan : ℕ
  pub destination : List ℕ
  pub source : List ℕ

-- `mac_frame_info_t`
pub record FrameInfo : Type 0 where
  pub header : Header
  pub payload_offset : ℕ
  pub payload_length : ℕ

-- `read_le16`
abbrev pub read_le16 : List ℕ → ℕ
read_le16 l = or_le16 (get_or l 0 0) (get_or l 1 0)

-- MAC_FLAG_PENDING, MAC_FLAG_ACK_REQUEST and MAC_FLAG_PAN_COMPRESSION in the flags.
abbrev pub is_pending : ℕ → Bool
is_pending flags = bit_and flags 0x10 != 0

abbrev pub requests_ack : ℕ → Bool
requests_ack flags = bit_and flags 0x20 != 0

abbrev pub is_compressed : ℕ → Bool
is_compressed flags = bit_and flags 0x40 != 0

-- What `header_shape` stores.
pub record Sizes : Type 0 where
  pub destination : ℕ
  pub source : ℕ
  pub header : ℕ

-- The bytes of an address by its mode.
abbrev pub mode_size : ℕ → ℕ
mode_size mode = if mode == 0 then 0 else if mode == 2 then 2 else 8

-- The sizes of a data or a command frame.
unfoldable pub sizes_of : Header → Sizes
sizes_of h =
    let destination_size = mode_size h.destination_mode in
    let source_size = mode_size h.source_mode in
    record {
      destination = destination_size;
      source = source_size;
      header =
          3
          + destination_size
          + source_size
          + (if destination_size != 0 then 2 else 0)
          + (if source_size != 0 && not (is_compressed h.flags) then 2 else 0);
    }

abbrev pub beacon_shape : Header → Result × Option Sizes
beacon_shape h =
    if h.destination_mode != 0 || (h.source_mode != 2 && h.source_mode != 3)
    then (unsupported_addressing, none)
    else if bit_and h.flags 0x60 != 0
    then (invalid_header, none)
    else let source_size : ℕ = if h.source_mode == 2 then 2 else 8 in
      (ok, some (record { destination = 0; source = source_size; header = 5 + source_size }))

abbrev pub ack_shape : Header → Result × Option Sizes
ack_shape h =
    if h.destination_mode != 0 || h.source_mode != 0 || bit_and h.flags 0x60 != 0
    then (invalid_header, none)
    else (ok, some (record { destination = 0; source = 0; header = 3 }))

-- `header_shape`
unfoldable pub header_shape : Header → Result × Option Sizes
unfolding sizes_of
header_shape h =
    if ltb 1 h.version || ((h.type == 0 || h.type == 2 || h.type == 3) && h.version != 0)
    then (unsupported_version, none)
    else if bit_and h.flags 0x08 != 0
    then (unsupported_security, none)
    else if bit_and h.flags 0x8f != 0
    then (invalid_header, none)
    else if h.type == 0
    then beacon_shape h
    else if h.type == 2
    then ack_shape h
    else if h.type != 1 && h.type != 3
    then (unsupported_type, none)
    else if ltb 3 h.destination_mode
        || h.destination_mode == 1
        || ltb 3 h.source_mode
        || h.source_mode == 1
    then (unsupported_addressing, none)
    else if (h.destination_mode == 0 || h.source_mode == 0)
        && (h.type == 1 || is_compressed h.flags || h.destination_mode == h.source_mode)
    then (unsupported_addressing, none)
    else (ok, some (sizes_of h))

-- `address_policy`
unfoldable pub address_policy : Header → Result
address_policy h =
    if h.type == 2
    then ok
    else if is_compressed h.flags && h.source_pan != h.destination_pan
    then invalid_header
    else if h.source_mode == 2 && read_le16 h.source == 0xffff
    then invalid_header
    else if h.type == 0
        && (h.source_pan == 0xffff || (h.source_mode == 2 && read_le16 h.source == 0xfffe))
    then invalid_header
    else if requests_ack h.flags && h.destination_mode == 2 && read_le16 h.destination == 0xffff
    then invalid_header
    else ok
