-- ===== src/ZclFrame/Tests.antt =====
-- Runs and witnesses of the ZCL frame codec.
use cc2530_zigbee.Base.{
  ℕ, ◌≡◌, refl, true, none, some, inl, List, [], ◌∷◌, bytes, drop, arith, or_le16,
}
use cc2530_zigbee.ZclFrame.{Header, FrameInfo, ok, unsupported_layout, decode, encode, read_header}
use cc2530_zigbee.ZclFrame.RoundTrip.{decode-encode_zcl, encode-decode_zcl}

-- A manufacturer specific command from server to client.
abbrev private_report : Header
private_report = record {
  type = 1;
  flags = 0x0c;
  manufacturer_code = 0x117c;
  sequence = 9;
  command_id = 10;
}

abbrev report_frame : List ℕ
report_frame = 0x0d ∷ 0x7c ∷ 0x11 ∷ 9 ∷ 10 ∷ 1 ∷ 2 ∷ []

abbrev report_info : FrameInfo
report_info = record {
  header = private_report;
  ignored_control_bits = 0;
  payload_offset = 5;
  payload_length = 2;
}

report_encodes : encode true private_report (bytes (1 ∷ 2 ∷ [])) 7 ≡ (ok, some report_frame)
unfolding encode
report_encodes = refl

report_decodes : decode (bytes report_frame) true ≡ (ok, some report_info)
unfolding decode read_header or_le16
report_decodes = refl

decode-encode_zcl_example :
    (decode (bytes report_frame) true ≡ (ok, some report_info)) × (drop 5 report_frame ≡ 1 ∷ 2 ∷ [])
decode-encode_zcl_example =
    decode-encode_zcl private_report (1 ∷ 2 ∷ []) 7
      (record { flags = omega arith; manufacturer_code = omega arith; unsent = inl refl })
      report_encodes

encode-decode_zcl_example :
    encode true private_report (bytes (1 ∷ 2 ∷ [])) 7 ≡ (ok, some report_frame)
encode-decode_zcl_example =
    encode-decode_zcl report_frame 7 (omega arith) report_decodes refl (omega arith)

reserved_bits : decode (bytes (0xe4 ∷ 0 ∷ 0 ∷ 0 ∷ 0 ∷ [])) true ≡ (unsupported_layout, none)
unfolding decode
reserved_bits = refl
