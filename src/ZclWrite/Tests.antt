-- ===== src/ZclWrite/Tests.antt =====
-- Runs and witnesses of writes.
use cc2530_zigbee.Base.{ℕ, ◌≤◌, ◌≡◌, refl, inr, or_le16, some, arith, List, [], ◌∷◌, length, bytes}
use cc2530_zigbee.ZclFrame
use cc2530_zigbee.ZclFrame.{ok, FrameInfo}
use cc2530_zigbee.ZclValue
use cc2530_zigbee.ZclAttributes.{Attribute}
use cc2530_zigbee.ZclWrite.{
  Edit, Progress, Output, begun, judge, scan, scan_all, answered, carried_out, conclude, handle,
}
use cc2530_zigbee.ZclWrite.Room.{scan_all_room}
use cc2530_zigbee.ZclWrite.Fuel.{scan_fuel}
use cc2530_zigbee.ZclWrite.Undivided.{AllOrNone, handle-AllOrNone}

-- IdentifyTime may be written; there is no attribute 9.
abbrev entries : List Attribute
entries =
    (record {
      id = 0;
      readable = 1;
      value = record { type = 0x21; string_non_value = 0; data_source = bytes (0 ∷ 0 ∷ []) };
    })
    ∷ []

abbrev time_edit : Edit
time_edit = record { id = 0; value = 0; written = 0 }

abbrev request : List ℕ
request = 0 ∷ 0 ∷ 0x21 ∷ 60 ∷ 0 ∷ 9 ∷ 0 ∷ 0x20 ∷ 1 ∷ []

abbrev outcome : Progress
outcome = record { last = 60; wrote = 1; body = 0x86 ∷ 9 ∷ 0 ∷ []; count = 2; errors = 1 }

runs : scan_all entries (some time_edit) request ≡ inr (ok, outcome)
unfolding scan_all scan judge ZclValue.decode ZclValue.decode_bytes ZclValue.decode_fixed
    ZclValue.value_shape ZclValue.non_value_pattern ZclValue.pattern_from or_le16
runs = refl

scan_all_room_example : length outcome.body ≤ 9
scan_all_room_example = scan_all_room entries (some time_edit) request ok outcome runs

scan_fuel_example :
    scan 10 entries (some time_edit) request begun ≡ scan 200 entries (some time_edit) request begun
scan_fuel_example =
    scan_fuel 10 200 entries (some time_edit) request begun (omega arith) (omega arith)

-- One record that is written undivided.
abbrev undivided : FrameInfo
undivided = record {
  header = record { type = 0; flags = 0; manufacturer_code = 0; sequence = 9; command_id = 3 };
  ignored_control_bits = 0;
  payload_offset = 3;
  payload_length = 5;
}

abbrev written : Edit
written = record { id = 0; value = 60; written = 1 }

abbrev output : Output
output = record {
  response = some (0x18 ∷ 9 ∷ 4 ∷ 0 ∷ []);
  info = record {
    kind = 0;
    length = 4;
    command_id = 4;
    sequence = 9;
    requested_count = 1;
    returned_count = 1;
    default_command = 0;
    default_status = 0;
  };
  edit = some written;
}

handled :
    handle entries undivided (0 ∷ 0 ∷ 0x21 ∷ 60 ∷ 0 ∷ []) 100 (some time_edit) ≡ (ok, some output)
unfolding handle conclude carried_out answered scan_all scan judge ZclValue.decode
    ZclValue.decode_bytes ZclValue.decode_fixed ZclValue.value_shape ZclValue.non_value_pattern
    ZclValue.pattern_from ZclFrame.encode ZclFrame.emit_frame or_le16
handled = refl

handle-AllOrNone_example : AllOrNone time_edit (0 ∷ 0 ∷ 0x21 ∷ 60 ∷ 0 ∷ []) (some written)
handle-AllOrNone_example =
    handle-AllOrNone entries undivided (0 ∷ 0 ∷ 0x21 ∷ 60 ∷ 0 ∷ []) 100 time_edit refl handled
