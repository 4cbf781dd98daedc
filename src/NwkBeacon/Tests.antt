-- ===== src/NwkBeacon/Tests.antt =====
-- Runs and witnesses of the beacon decoder.
use cc2530_zigbee.Base.{
  ℕ, ◌/◌, ◌%◌, true, some, List, [], ◌∷◌, length, get_or, replicate, bytes, IsBytes, ◌≡◌, ◌≢◌, ◌↔◌,
  arith,
}
use cc2530_zigbee.NwkBeacon.{ok, decode, pan_id}
use cc2530_zigbee.NwkBeacon.Fields.{decode_iff, fields}

-- A router at depth 1 with capacity for both kinds of children.
abbrev router : List ℕ
router = 0 ∷ 0x22 ∷ 0x8c ∷ 1 ∷ 2 ∷ 3 ∷ 4 ∷ 5 ∷ 6 ∷ 7 ∷ 8 ∷ 0xff ∷ 0xff ∷ 0xff ∷ 0 ∷ []

router-IsBytes : IsBytes router
router-IsBytes = ground arith

decode_iff_example : (decode (bytes router) true ≡ (ok, some (fields router))) ↔ (
    (length router ≡ 15)
    × (get_or router 0 0 ≡ 0)
    × (get_or router 1 0 / 16 ≡ 2)
    × (get_or router 2 0 % 4 ≡ 0)
    × (pan_id router ≢ replicate 8 0)
    × (pan_id router ≢ replicate 8 255)
    × (fields router ≡ fields router))
decode_iff_example = decode_iff router (fields router) router-IsBytes
