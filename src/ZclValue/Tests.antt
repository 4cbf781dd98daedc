-- ===== src/ZclValue/Tests.antt =====
-- Runs and witnesses of the value codec.
use cc2530_zigbee.Base.{ℕ, ◌≡◌, refl, true, some, List, [], ◌∷◌, ◌++◌, bytes, drop, take, arith}
use cc2530_zigbee.ZclFrame.{ok}
use cc2530_zigbee.ZclValue.{value_shape, encode, encode_string, decode}
use cc2530_zigbee.ZclValue.RoundTrip.{info_of, decode-encode_value}

-- A character string of three octets, with another record behind it.
abbrev name : List ℕ
name = 0x61 ∷ 0x62 ∷ 0x63 ∷ []

name_encodes :
    encode true (record { type = 0x42; string_non_value = 0; data_source = bytes name }) 4
    ≡ (ok, some (3 ∷ name))
unfolding encode encode_string value_shape
name_encodes = refl

decode-encode_value_example :
    (decode 0x42 (bytes ((3 ∷ name) ++ (7 ∷ 7 ∷ []))) true ≡ (ok, some (info_of 0x42 3 4 0)))
    × (take 3 (drop 1 ((3 ∷ name) ++ (7 ∷ 7 ∷ []))) ≡ name)
unfolding value_shape
decode-encode_value_example =
    decode-encode_value 0x42 0 name (7 ∷ 7 ∷ []) 4 (omega arith) name_encodes
