-- ===== src/MacFrame/Tests.antt =====
-- Runs and witnesses of the MAC codec.
use cc2530_zigbee.Base.{
  ℕ, ◌≡◌, ◌↔◌, refl, true, some, none, List, [], ◌∷◌, length, drop, bytes, arith, null, or_le16,
}
use cc2530_zigbee.MacFrame.{
  ok, truncated, invalid_header, Header, sizes_of, header_shape, address_policy,
}
use cc2530_zigbee.MacFrame.Command.{
  Command, command_size, command_policy, read_command, decode_command, encode_command,
  command_admitted, command_header_policy,
}
use cc2530_zigbee.MacFrame.BeaconFields.{any_broadcast, beacon_lists, beacon_fields, decode_beacon}
use cc2530_zigbee.MacFrame.Codec.{
  decode_profile, emit_frame, emit_source, emit_destination, encode, encode_shaped, store,
  command_status, beacon_status,
}
use cc2530_zigbee.MacFrame.RoundTrip.{decode-encode_mac}
use cc2530_zigbee.MacFrame.Commands.{encode_command_iff}

-- A data request of a child to its coordinator, with PAN compression.
abbrev poll : Header
poll = record {
  type = 3;
  version = 0;
  flags = 0x60;
  sequence = 9;
  destination_mode = 2;
  source_mode = 2;
  destination_pan = 0x1a62;
  source_pan = 0x1a62;
  destination = 0 ∷ 0 ∷ 0 ∷ 0 ∷ 0 ∷ 0 ∷ 0 ∷ 0 ∷ [];
  source = 0x34 ∷ 0x12 ∷ 0 ∷ 0 ∷ 0 ∷ 0 ∷ 0 ∷ 0 ∷ [];
}

abbrev poll_bytes : List ℕ
poll_bytes = 0x63 ∷ 0x88 ∷ 9 ∷ 0x62 ∷ 0x1a ∷ 0 ∷ 0 ∷ 0x34 ∷ 0x12 ∷ 4 ∷ []

poll_stored : encode true poll (bytes (4 ∷ [])) 125 ≡ (ok, some (poll_bytes, 10))
unfolding encode encode_shaped store header_shape address_policy command_status beacon_status
    command_header_policy decode_command read_command command_size command_policy command_admitted
    emit_frame emit_source emit_destination or_le16
poll_stored = refl

-- A poll that does not ask for an acknowledgement is refused.
refused : encode true (record poll { flags = 0x40 }) (bytes (4 ∷ [])) 125 ≡ (invalid_header, none)
unfolding encode encode_shaped store header_shape address_policy command_status beacon_status
    command_header_policy decode_command read_command command_size command_policy command_admitted
    emit_frame emit_source emit_destination or_le16
refused = refl

no_payload : encode true poll (null 0) 125 ≡ (truncated, none)
unfolding encode encode_shaped store header_shape address_policy command_status beacon_status
    command_header_policy or_le16
no_payload = refl

-- A beacon with one pending short address and two bytes of payload.
pending_beacon : decode_beacon (bytes (0xff ∷ 0xcf ∷ 0x80 ∷ 1 ∷ 0x34 ∷ 0x12 ∷ 7 ∷ 8 ∷ [])) true ≡ (
  ok,
  some (record {
    superframe_specification = 0xcfff;
    gts_permit = 1;
    short_count = 1;
    extended_count = 0;
    short_offset = 4;
    extended_offset = 6;
    payload_offset = 6;
    payload_length = 2;
  }),
)
unfolding decode_beacon beacon_fields beacon_lists any_broadcast or_le16
pending_beacon = refl

decode-encode_mac_example :
    (decode_profile (bytes poll_bytes) true 0 ≡ (
      ok,
      some (record {
        header = poll;
        payload_offset = (sizes_of poll).header;
        payload_length = length {A = ℕ} (4 ∷ []);
      }),
    ))
    × (drop (sizes_of poll).header poll_bytes ≡ 4 ∷ [])
    × (length poll_bytes ≡ 10)
decode-encode_mac_example =
    decode-encode_mac poll (4 ∷ []) 125 0
      (record {
        flags = omega arith;
        pans = omega arith;
        destination = (refl, refl);
        source = (refl, refl);
        no_destination = λ q. omega arith;
        no_source = λ q. omega arith;
      })
      (omega arith) poll_stored

abbrev response : Command
response = record { identifier = 2; capability = 0; short_address = 0x1234; status = 0; reason = 0 }

encode_command_iff_example :
    (encode_command true response 4
      ≡ (ok, some (2 ∷ 0x34 ∷ 0x12 ∷ 0 ∷ [], length {A = ℕ} (2 ∷ 0x34 ∷ 0x12 ∷ 0 ∷ []))))
    ↔ (decode_command (bytes (2 ∷ 0x34 ∷ 0x12 ∷ 0 ∷ [])) true ≡ (ok, some response))
encode_command_iff_example =
    encode_command_iff response (2 ∷ 0x34 ∷ 0x12 ∷ 0 ∷ [])
      (record {
        short_address = omega arith;
        no_capability = λ q. refl;
        no_address = λ q. absurd (q refl);
        no_reason = λ q. refl;
      })
      (omega arith)
