-- ===== src/NwkFrame/Tests.antt =====
-- Runs and witnesses of the NWK codec.
use cc2530_zigbee.Base.{
  ℕ, ◌≡◌, refl, true, some, List, [], ◌∷◌, bytes, drop, replicate, arith, or_le16, IsBytes,
}
use cc2530_zigbee.NwkFrame.{
  Header, FrameInfo, ok, decode, encode, emit_frame, header_shape, read_fixed, read_addresses,
}
use cc2530_zigbee.NwkFrame.RoundTrip.{decode-encode_nwk, Fits}
use cc2530_zigbee.NwkFrame.Encoded.{encode-decode_nwk}

-- A frame to the coordinator that carries the sender's IEEE address.
abbrev report : Header
report = record {
  type = 0;
  version = 2;
  discover_route = 1;
  flags = 0x1000;
  destination = 0;
  source = 0x1234;
  radius = 30;
  sequence = 7;
  destination_ieee = replicate 8 0;
  source_ieee = 1 ∷ 2 ∷ 3 ∷ 4 ∷ 5 ∷ 6 ∷ 7 ∷ 8 ∷ [];
}

abbrev report_frame : List ℕ
report_frame =
    0x48 ∷ 0x10 ∷ 0 ∷ 0 ∷ 0x34 ∷ 0x12 ∷ 30 ∷ 7 ∷ 1 ∷ 2 ∷ 3 ∷ 4 ∷ 5 ∷ 6 ∷ 7 ∷ 8 ∷ 0xaa ∷ 0xbb ∷ []

abbrev report_info : FrameInfo
report_info = record { header = report; payload_offset = 16; payload_length = 2 }

report_encodes : encode true report (bytes (0xaa ∷ 0xbb ∷ [])) 18 ≡ (ok, some report_frame)
unfolding encode emit_frame header_shape
report_encodes = refl

report_decodes : decode (bytes report_frame) true ≡ (ok, some report_info)
unfolding decode read_fixed read_addresses header_shape or_le16
report_decodes = refl

report-Fits : Fits report
report-Fits = record {
  flags = omega arith;
  destination = omega arith;
  source = omega arith;
  octets = (omega arith, omega arith);
  addresses = (refl, refl);
  no_destination = λ e. refl;
  no_source = λ e. absurd cc;
}

decode-encode_nwk_example :
    (decode (bytes report_frame) true ≡ (ok, some report_info))
    × (drop 16 report_frame ≡ 0xaa ∷ 0xbb ∷ [])
decode-encode_nwk_example =
    decode-encode_nwk report (0xaa ∷ 0xbb ∷ []) 18 report-Fits report_encodes

report_frame-IsBytes : IsBytes report_frame
report_frame-IsBytes = ground arith

encode-decode_nwk_example :
    encode true report (bytes (0xaa ∷ 0xbb ∷ [])) 127 ≡ (ok, some report_frame)
encode-decode_nwk_example =
    encode-decode_nwk report_frame 127 report_frame-IsBytes (omega arith) report_decodes
      (omega arith)
