-- ===== src/NwkFrame.antt =====
-- src/nwk_frame.c: the codec of unsecured NWK data frames.
pub mod Shape
mod Addresses
pub mod RoundTrip
pub mod Encoded
mod Tests
use cc2530_zigbee.Base.{
  ℕ, ◌+◌, ◌-◌, ◌*◌, ◌/◌, ◌^◌, bit_and, bit_or, Bool, true, false, ◌&&◌, ◌||◌, ltb, leb, ◌==◌, ◌!=◌,
  if◌then◌else◌, Option, none, some, List, [], ◌∷◌, ◌++◌, length, get_or, take, drop, replicate, u8,
  or_le16, Source, bytes, null, source_length, source_bytes, is_missing,
}

-- `nwk_codec_result_t`
pub data Result : Type 0 where
  ok invalid_argument truncated too_long buffer_too_small : Result
  unsupported_type unsupported_version unsupported_security unsupported_layout : Result
  invalid_header : Result

abbrev pub max_body : ℕ
max_body = 116

abbrev pub min_header : ℕ
min_header = 8

-- `nwk_header_t`
pub record Header : Type 0 where
  pub type : ℕ
  pub version : ℕ
  pub discover_route : ℕ
  pub flags : ℕ
  pub destination : ℕ
  pub source : ℕ
  pub radius : ℕ
  pub sequence : ℕ
  pub destination_ieee : List ℕ
  pub source_ieee : List ℕ

-- `nwk_frame_info_t`
pub record FrameInfo : Type 0 where
  pub header : Header
  pub payload_offset : ℕ
  pub payload_length : ℕ

-- NWK_FLAG_DESTINATION_IEEE and NWK_FLAG_SOURCE_IEEE.
abbrev pub has_destination_ieee : ℕ → Bool
has_destination_ieee flags = bit_and flags 0x0800 != 0

abbrev pub has_source_ieee : ℕ → Bool
has_source_ieee flags = bit_and flags 0x1000 != 0

-- The `*size` of `header_shape`.
abbrev pub size_of : ℕ → ℕ
size_of flags =
    min_header
    + (if has_destination_ieee flags then 8 else 0)
    + (if has_source_ieee flags then 8 else 0)

-- What `header_shape` returns; `size_of` is what it stores when that is `ok`.
pub header_shape : Header → Result
header_shape h =
    if h.type != 0
    then unsupported_type
    else if h.version != 2
    then unsupported_version
    else if bit_and h.flags 0x0200 != 0
    then unsupported_security
    else if bit_and h.flags 0x0500 != 0
    then unsupported_layout
    else if bit_and h.flags 0xc7ff != 0
    then invalid_header
    else if ltb 1 h.discover_route || leb 0xfff8 h.source
    then invalid_header
    else if leb 0xfff8 h.destination
        && (ltb h.destination 0xfffb
            || h.destination == 0xfffe
            || h.discover_route != 0
            || has_destination_ieee h.flags)
    then invalid_header
    else ok

-- `candidate.header.discover_route == 2u && candidate.header.destination < 0xfff8u`
abbrev pub received_route : ℕ → ℕ → ℕ
received_route discover destination =
    if discover == 2 && ltb destination 0xfff8 then 1 else discover

-- The fixed fields that `nwk_frame_decode` reads before `header_shape`; the addresses are zeroed.
pub read_fixed : List ℕ → Header
read_fixed body =
    let control = or_le16 (get_or body 0 0) (get_or body 1 0) in
    let destination = or_le16 (get_or body 2 0) (get_or body 3 0) in
    record {
      type = u8 (bit_and control 3);
      version = u8 (bit_and (control / 2 ^ 2) 15);
      discover_route = received_route (u8 (bit_and (control / 2 ^ 6) 3)) destination;
      flags = bit_and control 0xff00;
      destination = destination;
      source = or_le16 (get_or body 4 0) (get_or body 5 0);
      radius = get_or body 6 0;
      sequence = get_or body 7 0;
      destination_ieee = replicate 8 0;
      source_ieee = replicate 8 0;
    }

-- The two copies of IEEE addresses, each if its flag is set; `position` moves past the first.
pub read_addresses : Header → List ℕ → Header
read_addresses h body =
    let position = if has_destination_ieee h.flags then min_header + 8 else min_header in
    record h {
      destination_ieee =
          if has_destination_ieee h.flags
          then take 8 (drop min_header body)
          else h.destination_ieee;
      source_ieee = if has_source_ieee h.flags then take 8 (drop position body) else h.source_ieee;
    }

-- The end of `nwk_frame_decode`, from the answer of `header_shape`.
pub accept : Result → Header → List ℕ → Result × Option FrameInfo
accept ok h body = if ltb (length body) (size_of h.flags) then (truncated, none) else (
  ok,
  some (record {
    header = read_addresses h body;
    payload_offset = size_of h.flags;
    payload_length = u8 (length body - size_of h.flags);
  }),
)
accept status h body = (status, none)

pub decode_bytes : List ℕ → Result × Option FrameInfo
unfolding accept
decode_bytes body =
    if ltb max_body (length body)
    then (too_long, none)
    else if ltb (length body) min_header
    then (truncated, none)
    else accept (header_shape (read_fixed body)) (read_fixed body) body

-- `nwk_frame_decode`: the body with its length, and whether `result` is not NULL.
unfoldable pub decode : Source → Bool → Result × Option FrameInfo
unfolding decode_bytes
decode (null n) result = (invalid_argument, none)
decode (bytes body) false = (invalid_argument, none)
decode (bytes body) true = decode_bytes body

-- `emit_frame`: the bytes that it stores, from `body[0]` on
pub emit_frame : Header → List ℕ → List ℕ
emit_frame h payload =
    u8 (bit_or (bit_or h.type (h.version * 2 ^ 2)) (h.discover_route * 2 ^ 6))
    ∷ u8 (h.flags / 2 ^ 8)
    ∷ u8 h.destination
    ∷ u8 (h.destination / 2 ^ 8)
    ∷ u8 h.source
    ∷ u8 (h.source / 2 ^ 8)
    ∷ h.radius
    ∷ h.sequence
    ∷ ((if has_destination_ieee h.flags then h.destination_ieee else [])
        ++ ((if has_source_ieee h.flags then h.source_ieee else []) ++ payload))

-- The end of `nwk_frame_encode`: what is stored in the body; its length is `*length`.
pub store : Result → Header → Source → ℕ → Result × Option (List ℕ)
store ok h payload capacity =
    if ltb (max_body - size_of h.flags) (source_length payload)
    then (too_long, none)
    else if ltb capacity (size_of h.flags + source_length payload)
    then (buffer_too_small, none)
    else (ok, some (emit_frame h (source_bytes payload)))
store status h payload capacity = (status, none)

-- `nwk_frame_encode`: `pointers` says that the header, the body and the length are not NULL.
unfoldable pub encode : Bool → Header → Source → ℕ → Result × Option (List ℕ)
unfolding store
encode false h payload capacity = (invalid_argument, none)
encode true h payload capacity =
    if is_missing payload
    then (invalid_argument, none)
    else store (header_shape h) h payload capacity
