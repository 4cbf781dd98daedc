-- ===== src/ApsFrame/Tests.antt =====
-- Runs and witnesses of the APS codec.
use cc2530_zigbee.Base.{ℕ, ◌≡◌, refl, true, none, some, List, [], ◌∷◌, bytes, drop, arith}
use cc2530_zigbee.ApsFrame.{
  Header, FrameInfo, ok, unsupported_security, decode, encode, emit_frame, validate_header,
  read_header,
}
use cc2530_zigbee.ApsFrame.RoundTrip.{decode-encode_aps, encode-decode_aps}
use cc2530_zigbee.Base.{or_le16}

-- An acknowledged frame to the Basic cluster of the Home Automation profile.
abbrev basic : Header
basic = record {
  type = 0;
  delivery_mode = 0;
  flags = 0x40;
  destination_endpoint = 1;
  cluster_id = 0;
  profile_id = 0x0104;
  source_endpoint = 1;
  counter = 200;
}

abbrev basic_frame : List ℕ
basic_frame = 0x40 ∷ 1 ∷ 0 ∷ 0 ∷ 4 ∷ 1 ∷ 1 ∷ 200 ∷ 0x18 ∷ 7 ∷ []

abbrev basic_info : FrameInfo
basic_info = record { header = basic; payload_offset = 8; payload_length = 2 }

basic_encodes : encode true basic (bytes (0x18 ∷ 7 ∷ [])) 10 ≡ (ok, some basic_frame)
unfolding encode emit_frame validate_header
basic_encodes = refl

basic_decodes : decode (bytes basic_frame) true ≡ (ok, some basic_info)
unfolding decode read_header validate_header or_le16
basic_decodes = refl

decode-encode_aps_example :
    (decode (bytes basic_frame) true ≡ (ok, some basic_info)) × (drop 8 basic_frame ≡ 0x18 ∷ 7 ∷ [])
decode-encode_aps_example = decode-encode_aps basic (0x18 ∷ 7 ∷ []) 10 (omega arith) basic_encodes

encode-decode_aps_example : encode true basic (bytes (0x18 ∷ 7 ∷ [])) 40 ≡ (ok, some basic_frame)
encode-decode_aps_example =
    encode-decode_aps basic_frame 40 (omega arith) basic_decodes (omega arith)

-- A frame with the security flag is refused.
secured :
    decode (bytes (0x20 ∷ 1 ∷ 0 ∷ 0 ∷ 4 ∷ 1 ∷ 1 ∷ 200 ∷ [])) true ≡ (unsupported_security, none)
unfolding decode read_header validate_header or_le16
secured = refl
