-- ===== src/MacFrame/BeaconFields.antt =====
-- src/mac_frame.c: the MAC payload of a beacon.
use cc2530_zigbee.Base.{
  ℕ, zero, suc, ◌+◌, ◌-◌, ◌*◌, ◌/◌, ◌^◌, bit_and, Bool, true, false, ◌||◌, ltb, ◌==◌, ◌!=◌,
  if◌then◌else◌, Option, none, some, List, length, get_or, drop, u8, Source, bytes, null,
}
use cc2530_zigbee.MacFrame.{
  Result, ok, invalid_argument, truncated, too_long, invalid_beacon, unsupported_beacon, read_le16,
}

-- `mac_beacon_info_t`
pub record BeaconInfo : Type 0 where
  pub superframe_specification : ℕ
  pub gts_permit : ℕ
  pub short_count : ℕ
  pub extended_count : ℕ
  pub short_offset : ℕ
  pub extended_offset : ℕ
  pub payload_offset : ℕ
  pub payload_length : ℕ

abbrev pub max_pending : ℕ
max_pending = 7

abbrev pub max_payload : ℕ
max_payload = 52

-- The loop over the short addresses, for the rounds left and the bytes from `i` on.
unfoldable pub any_broadcast : ℕ → List ℕ → Bool
any_broadcast zero l = false
any_broadcast (suc n) l = read_le16 l == 0xffff || any_broadcast n (drop 2 l)

-- From the two counts on.
unfoldable pub beacon_lists : List ℕ → ℕ → ℕ → Result × Option BeaconInfo
beacon_lists payload short_count extended_count =
    let extended_offset = u8 (4 + 2 * short_count) in
    let payload_offset = u8 (extended_offset + 8 * extended_count) in
    if ltb max_pending (short_count + extended_count)
    then (invalid_beacon, none)
    else if ltb (length payload) payload_offset
    then (truncated, none)
    else if ltb (payload_offset + max_payload) (length payload)
    then (too_long, none)
    else if any_broadcast ((extended_offset - 4) / 2) (drop 4 payload)
    then (invalid_beacon, none)
    else (
      ok,
      some (record {
        superframe_specification = read_le16 payload;
        gts_permit = get_or payload 2 0 / 2 ^ 7;
        short_count = short_count;
        extended_count = extended_count;
        short_offset = 4;
        extended_offset = extended_offset;
        payload_offset = payload_offset;
        payload_length = u8 (length payload - payload_offset);
      }),
    )

-- `beacon_fields`, with the candidate that it copies where `result` is not NULL.
unfoldable pub beacon_fields : List ℕ → Result × Option BeaconInfo
beacon_fields payload =
    if ltb (4 + 8 * max_pending + max_payload) (length payload)
    then (too_long, none)
    else if ltb (length payload) 4
    then (truncated, none)
    else if bit_and (get_or payload 1 0) 0x20 != 0 || bit_and (get_or payload 2 0) 0x78 != 0
    then (invalid_beacon, none)
    else if bit_and (get_or payload 2 0) 7 != 0
    then (unsupported_beacon, none)
    else if bit_and (get_or payload 3 0) 0x88 != 0
    then (invalid_beacon, none)
    else beacon_lists payload (bit_and (get_or payload 3 0) 7)
        (bit_and (get_or payload 3 0 / 2 ^ 4) 7)

-- `mac_beacon_decode`: the payload with its length, and whether `result` is not NULL.
unfoldable pub decode_beacon : Source → Bool → Result × Option BeaconInfo
decode_beacon (null n) result = (invalid_argument, none)
decode_beacon (bytes payload) false = (invalid_argument, none)
decode_beacon (bytes payload) true = beacon_fields payload
