-- ===== src/ZclAttributes/Tests.antt =====
-- Runs and witnesses of the attribute table.
use cc2530_zigbee.Base.{◌≤◌, ◌≡◌, ◌⊎◌, ◌↔◌, false, some, List, [], ◌∷◌, length, bytes, arith}
use cc2530_zigbee.ZclFrame.{ok}
use cc2530_zigbee.ZclAttributes.{
  Attribute, AttributeSet, no_table, declared, check_set, read_records,
}
use cc2530_zigbee.ZclAttributes.Table.{WellFormed, check_set_iff}
use cc2530_zigbee.ZclAttributes.Room.{read_records_room}

-- A cluster with a version, which is readable, and an id that is not.
abbrev entries : List Attribute
entries =
    (record {
      id = 0;
      readable = 1;
      value = record { type = 0x20; string_non_value = 0; data_source = bytes (3 ∷ []) };
    })
    ∷ (record {
      id = 0xfffd;
      readable = 0;
      value = record { type = 0x21; string_non_value = 0; data_source = bytes (2 ∷ 0 ∷ []) };
    })
    ∷ []

abbrev basic_set : AttributeSet
basic_set = record {
  attributes = some entries;
  count = 2;
  side = 0;
  manufacturer_specific = 0;
  manufacturer_code = 0;
}

check_set_iff_example : (check_set (some basic_set) ≡ ok) ↔ (
    (basic_set.count ≤ 16)
    × (basic_set.side ≤ 1)
    × (basic_set.manufacturer_specific ≤ 1)
    × ((no_table basic_set.attributes ≡ false) ⊎ (basic_set.count ≡ 0))
    × WellFormed basic_set.manufacturer_specific (declared basic_set.attributes basic_set.count))
check_set_iff_example = check_set_iff basic_set

-- Three ids for a room of ten bytes.
read_records_room_example :
    length (read_records entries 10 (0 ∷ 0 ∷ 0xfd ∷ 0xff ∷ 9 ∷ 0 ∷ []) [] 0).1 ≤ 10
read_records_room_example =
    read_records_room entries 10 (0 ∷ 0 ∷ 0xfd ∷ 0xff ∷ 9 ∷ 0 ∷ []) [] 0 (omega arith) (omega arith)
