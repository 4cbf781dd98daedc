-- ===== src/ApsFrame.antt =====
-- src/aps_frame.c: the codec of unsecured APS data frames.
pub mod RoundTrip
mod Tests
use cc2530_zigbee.Base.{
  ℕ, ◌+◌, ◌-◌, ◌*◌, ◌/◌, ◌^◌, bit_and, bit_or, Bool, true, false, ◌&&◌, ◌||◌, ltb, ◌==◌, ◌!=◌,
  if◌then◌else◌, Option, none, some, List, [], ◌∷◌, ◌++◌, length, get_or, u8, or_le16, Source,
  bytes, null, source_length, source_bytes, is_missing,
}

-- `aps_codec_result_t`
pub data Result : Type 0 where
  ok invalid_argument truncated too_long buffer_too_small : Result
  unsupported_type unsupported_delivery unsupported_security unsupported_layout : Result
  invalid_header : Result

abbrev pub max_body : ℕ
max_body = 108

abbrev pub header_size : ℕ
header_size = 8

-- `aps_header_t`
pub record Header : Type 0 where
  pub type : ℕ
  pub delivery_mode : ℕ
  pub flags : ℕ
  pub destination_endpoint : ℕ
  pub cluster_id : ℕ
  pub profile_id : ℕ
  pub source_endpoint : ℕ
  pub counter : ℕ

-- `aps_frame_info_t`
pub record FrameInfo : Type 0 where
  pub header : Header
  pub payload_offset : ℕ
  pub payload_length : ℕ

-- `validate_header`: APS_FLAG_SECURITY, APS_FLAG_ACK_FORMAT | APS_FLAG_EXTENDED_HEADER, and all
-- flags but APS_FLAG_ACK_REQUEST.
pub validate_header : Header → Result
validate_header h =
    if h.type != 0
    then unsupported_type
    else if bit_and h.flags 0x20 != 0
    then unsupported_security
    else if bit_and h.flags 0x90 != 0
    then unsupported_layout
    else if bit_and h.flags 0xbf != 0
    then invalid_header
    else if h.delivery_mode == 1 || ltb 3 h.delivery_mode
    then invalid_header
    else if h.delivery_mode != 0
    then unsupported_delivery
    else if h.source_endpoint == 0xff
    then invalid_header
    else ok

-- The header fields that `aps_frame_decode` reads from a body.
pub read_header : List ℕ → Header
read_header body = record {
  type = bit_and (get_or body 0 0) 3;
  delivery_mode = bit_and (get_or body 0 0 / 2 ^ 2) 3;
  flags = bit_and (get_or body 0 0) 0xf0;
  destination_endpoint = get_or body 1 0;
  cluster_id = or_le16 (get_or body 2 0) (get_or body 3 0);
  profile_id = or_le16 (get_or body 4 0) (get_or body 5 0);
  source_endpoint = get_or body 6 0;
  counter = get_or body 7 0;
}

-- The end of `aps_frame_decode`: what `validate_header` answers, and `*result` where it accepts.
pub accept : Result → Header → ℕ → Result × Option FrameInfo
accept ok h length = (
  ok,
  some (record {
    header = h;
    payload_offset = header_size;
    payload_length = u8 (length - header_size);
  }),
)
accept status h length = (status, none)

pub decode_bytes : List ℕ → Result × Option FrameInfo
unfolding accept
decode_bytes body =
    if ltb max_body (length body)
    then (too_long, none)
    else if length body == 0
    then (truncated, none)
    else if bit_and (get_or body 0 0) 3 != 0
    then (unsupported_type, none)
    else if ltb (length body) header_size
    then (truncated, none)
    else accept (validate_header (read_header body)) (read_header body) (length body)

-- `aps_frame_decode`: the body with its length, and whether `result` is not NULL.
pub decode : Source → Bool → Result × Option FrameInfo
unfolding decode_bytes
decode (null n) result = (invalid_argument, none)
decode (bytes body) false = (invalid_argument, none)
decode (bytes body) true = decode_bytes body

-- `emit_frame`: the bytes that it stores, from `body[0]` on
pub emit_frame : Header → List ℕ → List ℕ
emit_frame h payload =
    u8 (bit_or (bit_or h.type (h.delivery_mode * 2 ^ 2)) h.flags)
    ∷ h.destination_endpoint
    ∷ u8 h.cluster_id
    ∷ u8 (h.cluster_id / 2 ^ 8)
    ∷ u8 h.profile_id
    ∷ u8 (h.profile_id / 2 ^ 8)
    ∷ h.source_endpoint
    ∷ h.counter
    ∷ payload

-- The end of `aps_frame_encode`: what is stored in the body; its length is `*length`.
pub store : Result → Header → Source → ℕ → Result × Option (List ℕ)
store ok h payload capacity =
    if ltb (max_body - header_size) (source_length payload)
    then (too_long, none)
    else if ltb capacity (header_size + source_length payload)
    then (buffer_too_small, none)
    else (ok, some (emit_frame h (source_bytes payload)))
store status h payload capacity = (status, none)

-- `aps_frame_encode`: `pointers` says that the header, the body and the length are not NULL.
pub encode : Bool → Header → Source → ℕ → Result × Option (List ℕ)
unfolding store
encode false h payload capacity = (invalid_argument, none)
encode true h payload capacity =
    if is_missing payload
    then (invalid_argument, none)
    else store (validate_header h) h payload capacity
