-- ===== src/MacFrame/Codec.antt =====
-- src/mac_frame.c: mac_frame_decode_profile, mac_frame_decode and mac_frame_encode.
use cc2530_zigbee.Base.{
  ℕ, ◌+◌, ◌-◌, ◌*◌, ◌/◌, ◌^◌, bit_and, bit_or, Bool, true, false, ◌&&◌, ltb, ◌==◌, ◌!=◌,
  if◌then◌else◌, Option, none, some, List, [], ◌∷◌, ◌++◌, length, get_or, take, drop, replicate, u8,
  Source, bytes, null, source_bytes, is_missing,
}
use cc2530_zigbee.MacFrame.{
  Result, ok, invalid_argument, truncated, too_long, buffer_too_small, invalid_header, Header,
  FrameInfo, Sizes, read_le16, is_compressed, header_shape, address_policy,
}
use cc2530_zigbee.MacFrame.Command.{command_header_policy}
use cc2530_zigbee.MacFrame.BeaconFields.{beacon_fields}

abbrev pub max_body : ℕ
max_body = 125

-- `memcpy(address, l, size)` into an address of zeros.
abbrev pub copied : ℕ → List ℕ → List ℕ
copied size l = take size l ++ replicate (8 - size) 0

-- The candidate's header as it is given to `header_shape`.
unfoldable pub read_start : List ℕ → Header
read_start body = record {
  type = bit_and (get_or body 0 0) 0x07;
  version = bit_and (get_or body 1 0 / 2 ^ 4) 0x03;
  flags = bit_and (get_or body 0 0) 0xf8;
  sequence = get_or body 2 0;
  destination_mode = bit_and (get_or body 1 0 / 2 ^ 2) 0x03;
  source_mode = bit_and (get_or body 1 0 / 2 ^ 6) 0x03;
  destination_pan = 0;
  source_pan = 0;
  destination = replicate 8 0;
  source = replicate 8 0;
}

-- The two reads of addresses, each of the bytes from `position` on.
unfoldable pub read_destination : ℕ → Header → List ℕ → Header
read_destination size h l =
    if size != 0
    then record h { destination_pan = read_le16 l; destination = copied size (drop 2 l) }
    else h

unfoldable pub read_source : ℕ → Header → List ℕ → Header
read_source size h l =
    if size != 0
    then (if is_compressed h.flags
        then record h { source_pan = h.destination_pan; source = copied size l }
        else record h { source_pan = read_le16 l; source = copied size (drop 2 l) })
    else h

-- `position` behind the destination
abbrev pub source_position : ℕ → ℕ
source_position destination_size = if destination_size != 0 then 3 + 2 + destination_size else 3

unfoldable pub read_addresses : Sizes → Header → List ℕ → Header
read_addresses z h body =
    read_source z.source (read_destination z.destination h (drop 3 body))
      (drop (source_position z.destination) body)

-- A status that is returned unless it is ok.
abbrev pub checked {ℓ} : {A : Type ℓ} → Result → Result × Option A → Result × Option A
checked ok rest = rest
checked status rest = (status, none)

-- The policies of command and beacon payloads.
unfoldable pub command_status : Header → List ℕ → ℕ → Result
command_status h payload mode = if h.type == 3 then command_header_policy h payload mode else ok

unfoldable pub beacon_status : Header → List ℕ → Result
beacon_status h payload = if h.type == 0 then (beacon_fields payload).0 else ok

-- From `address_policy` on.
unfoldable pub accept : ℕ → List ℕ → ℕ → Header → Result × Option FrameInfo
accept profile body header_size h = checked (address_policy h) (
    checked (command_status h (drop header_size body) (u8 (profile * 2))) (
      checked (beacon_status h (drop header_size body)) (
        ok,
        some (record {
          header = h;
          payload_offset = header_size;
          payload_length = u8 (length body - header_size);
        }),
      )))

-- From the answer of `header_shape` on.
unfoldable pub decode_shaped :
    ℕ → List ℕ → Header → Result × Option Sizes → Result × Option FrameInfo
unfolding accept read_addresses
decode_shaped profile body h (ok, some z) =
    if ltb (length body) z.header
    then (truncated, none)
    else if h.type == 2 && length body != z.header
    then (invalid_header, none)
    else accept profile body z.header (read_addresses z h body)
decode_shaped profile body h (ok, none) = (ok, none)
decode_shaped profile body h (status, o) = (status, none)

unfoldable pub decode_bytes : ℕ → List ℕ → Result × Option FrameInfo
decode_bytes profile body =
    if ltb max_body (length body)
    then (too_long, none)
    else if ltb (length body) 3
    then (truncated, none)
    else if bit_and (get_or body 1 0) 0x03 != 0
    then (invalid_header, none)
    else decode_shaped profile body (read_start body) (header_shape (read_start body))

-- `mac_frame_decode_profile`: the body with its length, whether `result` is not NULL, the profile.
unfoldable pub decode_profile : Source → Bool → ℕ → Result × Option FrameInfo
decode_profile (null n) result profile = (invalid_argument, none)
decode_profile (bytes body) false profile = (invalid_argument, none)
decode_profile (bytes body) true profile =
    if ltb 1 profile then (invalid_argument, none) else decode_bytes profile body

-- `mac_frame_decode`
unfoldable pub decode : Source → Bool → Result × Option FrameInfo
decode body result = decode_profile body result 0

-- The addresses that `emit_frame` stores.
unfoldable pub emit_destination : ℕ → Header → List ℕ
emit_destination size h =
    if size != 0
    then u8 h.destination_pan ∷ u8 (h.destination_pan / 2 ^ 8) ∷ take size h.destination
    else []

unfoldable pub emit_source : ℕ → Header → List ℕ
emit_source size h =
    if size != 0
    then (if is_compressed h.flags
        then take size h.source
        else u8 h.source_pan ∷ u8 (h.source_pan / 2 ^ 8) ∷ take size h.source)
    else []

-- `emit_frame`: the bytes that it stores, from `body[0]` on
unfoldable pub emit_frame : Header → List ℕ → Sizes → List ℕ
emit_frame h payload z =
    u8 (bit_or h.type h.flags)
    ∷ u8 (bit_or (bit_or (h.destination_mode * 2 ^ 2) (h.version * 2 ^ 4)) (h.source_mode * 2 ^ 6))
    ∷ h.sequence
    ∷ (emit_destination z.destination h ++ (emit_source z.source h ++ payload))

-- From `address_policy` on, for the sizes of the header: what is stored in the body and `*length`.
unfoldable pub store : Header → List ℕ → ℕ → Sizes → Result × Option (List ℕ × ℕ)
store h payload capacity z = checked (address_policy h) (
    if h.type == 2 && length payload != 0
    then (invalid_header, none)
    else if ltb (max_body - z.header) (length payload)
    then (too_long, none)
    else checked (command_status h payload 1) (
        checked (beacon_status h payload) (
          if ltb capacity (z.header + length payload)
          then (buffer_too_small, none)
          else (ok, some (emit_frame h payload z, u8 (z.header + length payload))))))

unfoldable pub encode_shaped :
    Header → List ℕ → ℕ → Result × Option Sizes → Result × Option (List ℕ × ℕ)
encode_shaped h payload capacity (ok, some z) = store h payload capacity z
encode_shaped h payload capacity (ok, none) = (ok, none)
encode_shaped h payload capacity (status, o) = (status, none)

-- `mac_frame_encode`: `pointers` says that the header, the body and the length are not NULL.
unfoldable pub encode : Bool → Header → Source → ℕ → Result × Option (List ℕ × ℕ)
encode false h payload capacity = (invalid_argument, none)
encode true h payload capacity =
    if is_missing payload
    then (invalid_argument, none)
    else encode_shaped h (source_bytes payload) capacity (header_shape h)
