-- ===== src/NwkBeacon.antt =====
-- src/nwk_beacon.c: the decoder of the NWK beacon payload.
pub mod Fields
mod Tests
use cc2530_zigbee.Base.{
  ℕ, ◌+◌, ◌-◌, ◌*◌, ◌/◌, ◌^◌, bit_and, bit_or, Bool, true, false, ◌||◌, ltb, ◌==◌, ◌!=◌,
  if◌then◌else◌, Option, none, some, List, [], ◌∷◌, length, get_or, take, drop, Source, bytes, null,
}

-- `nwk_beacon_result_t`
pub data Result : Type 0 where
  ok invalid_argument truncated too_long unsupported_protocol unsupported_version : Result
  invalid_fields : Result

-- `NWK_BEACON_LENGTH`
abbrev pub beacon_length : ℕ
beacon_length = 15

-- `nwk_beacon_t`
pub record Beacon : Type 0 where
  pub stack_profile : ℕ
  pub router_capacity : ℕ
  pub device_depth : ℕ
  pub end_device_capacity : ℕ
  pub extended_pan_id : List ℕ
  pub tx_offset : ℕ
  pub update_id : ℕ

-- `any` and `all` of the loop over the extended PAN id
unfoldable pub any_of : ℕ → List ℕ → ℕ
any_of any [] = any
any_of any (x ∷ xs) = any_of (bit_or any x) xs

unfoldable pub all_of : ℕ → List ℕ → ℕ
all_of all [] = all
all_of all (x ∷ xs) = all_of (bit_and all x) xs

abbrev pub pan_id : List ℕ → List ℕ
pan_id payload = take 8 (drop 3 payload)

-- The candidate, as it is when it is copied to the result.
unfoldable pub read_beacon : List ℕ → Beacon
read_beacon payload = record {
  stack_profile = bit_and (get_or payload 1 0) 0x0f;
  router_capacity = if bit_and (get_or payload 2 0) 4 != 0 then 1 else 0;
  device_depth = bit_and (get_or payload 2 0 / 2 ^ 3) 0x0f;
  end_device_capacity = get_or payload 2 0 / 2 ^ 7;
  extended_pan_id = pan_id payload;
  tx_offset =
      bit_or (bit_or (get_or payload 11 0) (get_or payload 12 0 * 2 ^ 8))
        (get_or payload 13 0 * 2 ^ 16);
  update_id = get_or payload 14 0;
}

unfoldable pub decode_bytes : List ℕ → Result × Option Beacon
decode_bytes payload =
    if ltb (length payload) beacon_length
    then (truncated, none)
    else if ltb beacon_length (length payload)
    then (too_long, none)
    else if get_or payload 0 0 != 0
    then (unsupported_protocol, none)
    else if get_or payload 1 0 / 2 ^ 4 != 2
    then (unsupported_version, none)
    else if bit_and (get_or payload 2 0) 3 != 0
    then (invalid_fields, none)
    else if any_of 0 (pan_id payload) == 0 || all_of 0xff (pan_id payload) == 0xff
    then (invalid_fields, none)
    else (ok, some (read_beacon payload))

-- `nwk_beacon_decode`: the payload with its length, and whether `result` is not NULL.
unfoldable pub decode : Source → Bool → Result × Option Beacon
unfolding decode_bytes
decode (null n) result = (invalid_argument, none)
decode (bytes payload) false = (invalid_argument, none)
decode (bytes payload) true = decode_bytes payload
