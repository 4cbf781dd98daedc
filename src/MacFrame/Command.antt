-- ===== src/MacFrame/Command.antt =====
-- src/mac_frame.c: the payloads of MAC commands, and which headers they may stand under.
use cc2530_zigbee.Base.{
  ℕ, ◌/◌, ◌^◌, bit_and, Bool, true, false, not, ◌&&◌, ◌||◌, ltb, leb, ◌==◌, ◌!=◌, if◌then◌else◌,
  Option, none, some, List, [], ◌∷◌, length, get_or, drop, u8, Source, bytes, null,
}
use cc2530_zigbee.MacFrame.{
  Result, ok, invalid_argument, truncated, too_long, buffer_too_small, invalid_header,
  unsupported_command, invalid_command, Header, read_le16, is_pending, requests_ack, is_compressed,
}

-- `mac_command_t`. The identifiers are MAC_COMMAND_ASSOCIATION_REQUEST 1, _ASSOCIATION_RESPONSE 2,
-- _DISASSOCIATION 3, _DATA_REQUEST 4 and _BEACON_REQUEST 7.
pub record Command : Type 0 where
  pub identifier : ℕ
  pub capability : ℕ
  pub short_address : ℕ
  pub status : ℕ
  pub reason : ℕ

unfoldable pub command_size : ℕ → ℕ
command_size id =
    if id == 1 || id == 3 then 2 else if id == 2 then 4 else if id == 4 || id == 7 then 1 else 0

unfoldable pub command_policy : Command → Result
command_policy c =
    if c.identifier == 1
    then (if bit_and c.capability 0x30 != 0 then invalid_command else ok)
    else if c.identifier == 2
    then (if ltb 2 c.status
          || (c.status == 0 && c.short_address == 0xffff)
          || (c.status != 0 && c.short_address != 0xffff)
        then invalid_command
        else ok)
    else if c.identifier == 3
    then (if c.reason != 1 && c.reason != 2 then invalid_command else ok)
    else if c.identifier == 4 || c.identifier == 7
    then ok
    else unsupported_command

-- The candidate of `mac_command_decode`, as it is given to `command_policy`.
unfoldable pub read_command : List ℕ → Command
read_command payload =
    let id = get_or payload 0 0 in
    record {
      identifier = id;
      capability = if id == 1 then get_or payload 1 0 else 0;
      short_address = if id == 2 then read_le16 (drop 1 payload) else 0;
      status = if id == 2 then get_or payload 3 0 else 0;
      reason = if id == 3 then get_or payload 1 0 else 0;
    }

abbrev pub publish : Result → Command → Result × Option Command
publish ok c = (ok, some c)
publish status c = (status, none)

unfoldable pub decode_command_bytes : List ℕ → Result × Option Command
decode_command_bytes payload =
    if ltb 4 (length payload)
    then (too_long, none)
    else if length payload == 0
    then (truncated, none)
    else if command_size (get_or payload 0 0) == 0
    then (unsupported_command, none)
    else if ltb (length payload) (command_size (get_or payload 0 0))
    then (truncated, none)
    else if length payload != command_size (get_or payload 0 0)
    then (invalid_command, none)
    else publish (command_policy (read_command payload)) (read_command payload)

-- `mac_command_decode`: the payload with its length, and whether `result` is not NULL.
unfoldable pub decode_command : Source → Bool → Result × Option Command
unfolding decode_command_bytes
decode_command (null n) result = (invalid_argument, none)
decode_command (bytes payload) false = (invalid_argument, none)
decode_command (bytes payload) true = decode_command_bytes payload

-- The bytes that `mac_command_encode` stores.
unfoldable pub emit_command : Command → List ℕ
emit_command c =
    c.identifier
    ∷ (if c.identifier == 1
        then c.capability ∷ []
        else if c.identifier == 2
        then u8 c.short_address ∷ u8 (c.short_address / 2 ^ 8) ∷ c.status ∷ []
        else if c.identifier == 3
        then c.reason ∷ []
        else [])

abbrev pub store_command : Result → Command → ℕ → Result × Option (List ℕ × ℕ)
store_command ok c capacity =
    if ltb capacity (command_size c.identifier)
    then (buffer_too_small, none)
    else (ok, some (emit_command c, command_size c.identifier))
store_command status c capacity = (status, none)

-- `mac_command_encode`: `pointers` says that the three are not NULL. It answers what it stores in
-- the payload and in `*length`.
unfoldable pub encode_command : Bool → Command → ℕ → Result × Option (List ℕ × ℕ)
encode_command false c capacity = (invalid_argument, none)
encode_command true c capacity = store_command (command_policy c) c capacity

-- The tests of `command_header_policy` behind the decoder.
unfoldable pub command_admitted : Header → Command → ℕ → Result
command_admitted h c mode =
    if mode == 1 && is_pending h.flags
    then invalid_header
    else if c.identifier == 7
    then (if h.destination_mode != 2
          || h.source_mode != 0
          || h.destination_pan != 0xffff
          || read_le16 h.destination != 0xffff
          || requests_ack h.flags
        then invalid_header
        else ok)
    else if not (requests_ack h.flags)
        || (h.destination_mode == 2 && leb 0xfffe (read_le16 h.destination))
        || (h.source_mode == 2 && leb 0xfffe (read_le16 h.source))
    then invalid_header
    else if c.identifier == 4
    then (if h.source_mode == 0 || differ (is_compressed h.flags) (h.destination_mode != 0)
        then invalid_header
        else ok)
    else if h.source_mode != 3 || h.destination_mode == 0
    then invalid_header
    else if c.identifier == 1
    then (if is_compressed h.flags || h.source_pan != 0xffff then invalid_header else ok)
    else if (c.identifier == 2 && h.destination_mode != 3)
        || (not (is_compressed h.flags) && not (mode == 2 && c.identifier == 2))
    then invalid_header
    else ok
  where
    differ : Bool → Bool → Bool
    differ a b = (a && not b) || (not a && b)

abbrev pub admit : Header → Result × Option Command → ℕ → Result
admit h (ok, some c) mode = command_admitted h c mode
admit h (ok, none) mode = ok
admit h (status, o) mode = status

-- `command_header_policy`: mode 0 is reception, 1 transmission, and 2 the reception of an R22
-- association response.
unfoldable pub command_header_policy : Header → List ℕ → ℕ → Result
command_header_policy h payload mode =
    if length payload == 0 then truncated else admit h (decode_command (bytes payload) true) mode
