-- ===== src/ZclFrame.antt =====
-- src/zcl_frame.c: the codec of ZCL frames.
pub mod RoundTrip
pub mod Decoded
mod Tests
use cc2530_zigbee.Base.{
  ℕ, ◌+◌, ◌-◌, ◌/◌, ◌^◌, bit_and, bit_or, Bool, true, false, ◌&&◌, ltb, ◌==◌, ◌!=◌, if◌then◌else◌,
  Option, none, some, List, [], ◌∷◌, ◌++◌, length, get_or, u8, or_le16, Source, bytes, null,
  source_length, source_bytes, is_missing,
}

-- `zcl_codec_result_t`
pub data Result : Type 0 where
  ok invalid_argument truncated too_long buffer_too_small unsupported_frame_type : Result
  unsupported_data_type unsupported_layout invalid_header invalid_value invalid_table : Result
  unsupported_command unsupported_context unsupported_no_response : Result

abbrev pub max_body : ℕ
max_body = 100

abbrev pub min_header : ℕ
min_header = 3

abbrev pub max_header : ℕ
max_header = 5

-- `zcl_header_t`
pub record Header : Type 0 where
  pub type : ℕ
  pub flags : ℕ
  pub manufacturer_code : ℕ
  pub sequence : ℕ
  pub command_id : ℕ

-- `zcl_frame_info_t`
pub record FrameInfo : Type 0 where
  pub header : Header
  pub ignored_control_bits : ℕ
  pub payload_offset : ℕ
  pub payload_length : ℕ

-- The size of the header by ZCL_FLAG_MANUFACTURER_SPECIFIC.
abbrev pub size_of : ℕ → ℕ
size_of control = if bit_and control 0x04 != 0 then max_header else min_header

-- What `zcl_frame_decode` reads from a body of enough bytes; the fields are zeroed first.
unfoldable pub read_header : List ℕ → Header
read_header body =
    if bit_and (bit_and (get_or body 0 0) 0x1c) 0x04 != 0
    then record {
      type = bit_and (get_or body 0 0) 3;
      flags = bit_and (get_or body 0 0) 0x1c;
      manufacturer_code = or_le16 (get_or body 1 0) (get_or body 2 0);
      sequence = get_or body 3 0;
      command_id = get_or body 4 0;
    }
    else record {
      type = bit_and (get_or body 0 0) 3;
      flags = bit_and (get_or body 0 0) 0x1c;
      manufacturer_code = 0;
      sequence = get_or body 1 0;
      command_id = get_or body 2 0;
    }

unfoldable pub decode_bytes : List ℕ → Result × Option FrameInfo
decode_bytes body =
    if ltb max_body (length body)
    then (too_long, none)
    else if length body == 0
    then (truncated, none)
    else if ltb 1 (bit_and (get_or body 0 0) 3)
    then (unsupported_frame_type, none)
    else if bit_and (get_or body 0 0) 0x04 != 0 && bit_and (get_or body 0 0) 0xe0 != 0
    then (unsupported_layout, none)
    else if ltb (length body) (size_of (get_or body 0 0))
    then (truncated, none)
    else (
      ok,
      some (record {
        header = read_header body;
        ignored_control_bits = bit_and (get_or body 0 0) 0xe0;
        payload_offset = size_of (get_or body 0 0);
        payload_length = u8 (length body - size_of (get_or body 0 0));
      }),
    )

-- `zcl_frame_decode`: the body with its length, and whether `result` is not NULL.
unfoldable pub decode : Source → Bool → Result × Option FrameInfo
unfolding decode_bytes
decode (null n) result = (invalid_argument, none)
decode (bytes body) false = (invalid_argument, none)
decode (bytes body) true = decode_bytes body

-- The bytes that `zcl_frame_encode` stores, from `body[0]` on.
unfoldable pub emit_frame : Header → List ℕ → List ℕ
emit_frame h payload =
    bit_or h.type h.flags
    ∷ ((if bit_and h.flags 0x04 != 0
          then u8 h.manufacturer_code ∷ u8 (h.manufacturer_code / 2 ^ 8) ∷ []
          else [])
        ++ (h.sequence ∷ h.command_id ∷ payload))

-- `zcl_frame_encode`: `pointers` says that the header, the body and the length are not NULL.
unfoldable pub encode : Bool → Header → Source → ℕ → Result × Option (List ℕ)
unfolding emit_frame
encode false h payload capacity = (invalid_argument, none)
encode true h payload capacity =
    if is_missing payload
    then (invalid_argument, none)
    else if ltb 1 h.type
    then (unsupported_frame_type, none)
    else if bit_and h.flags 0xe3 != 0
    then (invalid_header, none)
    else if ltb (max_body - size_of h.flags) (source_length payload)
    then (too_long, none)
    else if ltb capacity (size_of h.flags + source_length payload)
    then (buffer_too_small, none)
    else (ok, some (emit_frame h (source_bytes payload)))
