-- ===== src/ZclDispatch/Tests.antt =====
-- Runs and witnesses of the dispatcher.
use cc2530_zigbee.Base.{ℕ, ◌≡◌, ◌⊎◌, refl, true, some, List, [], ◌∷◌, get_or, or_le16, bytes, arith}
use cc2530_zigbee.ZclFrame
use cc2530_zigbee.ZclFrame.{Result, ok, FrameInfo}
use cc2530_zigbee.ZclValue.{value_shape}
use cc2530_zigbee.ZclAttributes.{Attribute, AttributeSet, check_set, check_entries}
use cc2530_zigbee.ZclDispatch.{
  DispatchInfo, dispatch, dispatch_checked, dispatch_decoded, dispatch_frame, discover_command,
  discover, discovered, replied, normalized_status,
}
use cc2530_zigbee.ZclDispatch.Discover.{
  Listing, next_from, next_attribute, discover_from, discover_all, records_of, room_of,
}
use cc2530_zigbee.ZclDispatch.Ascending.{Outcome}
use cc2530_zigbee.ZclDispatch.Listed.{discover_all_lists}
use cc2530_zigbee.ZclDispatch.Reply.{IsReply}
use cc2530_zigbee.ZclDispatch.Replies.{dispatch-IsReply}

abbrev attribute : ℕ → ℕ → Attribute
attribute id type = record {
  id = id;
  readable = 1;
  value = record { type = type; string_non_value = 0; data_source = bytes (1 ∷ []) };
}

-- A table that is not in the order of its ids.
abbrev entries : List Attribute
entries = attribute 5 0x20 ∷ attribute 0 0x20 ∷ attribute 4 0x30 ∷ []

abbrev server : AttributeSet
server = record {
  attributes = some entries;
  count = 3;
  side = 0;
  manufacturer_specific = 0;
  manufacturer_code = 0;
}

-- Discover two attributes from 0 on.
abbrev request : List ℕ
request = 0 ∷ 7 ∷ 0x0c ∷ 0 ∷ 0 ∷ 2 ∷ []

abbrev response : List ℕ
response = 0x18 ∷ 7 ∷ 0x0d ∷ 0 ∷ 0 ∷ 0 ∷ 0x20 ∷ 4 ∷ 0 ∷ 0x30 ∷ []

abbrev frame : FrameInfo
frame = record {
  header = record { type = 0; flags = 0; manufacturer_code = 0; sequence = 7; command_id = 0x0c };
  ignored_control_bits = 0;
  payload_offset = 3;
  payload_length = 3;
}

abbrev info : DispatchInfo
info = record {
  kind = 0;
  length = 10;
  command_id = 0x0d;
  sequence = 7;
  requested_count = 2;
  returned_count = 2;
  discovery_complete = 0;
  default_command = 0;
  default_status = 0;
  default_raw_status = 0;
}

decoded : ZclFrame.decode (bytes request) true ≡ (ok, some frame)
unfolding ZclFrame.decode ZclFrame.read_header or_le16
decoded = refl

answered : dispatch (some server) (bytes request) true 100 ≡ (ok, some (some response, info))
unfolding dispatch dispatch_checked dispatch_decoded dispatch_frame discover_command discover
    discovered replied check_set check_entries ZclFrame.decode ZclFrame.read_header
    ZclFrame.emit_frame ZclFrame.encode discover_all discover_from next_attribute next_from
    records_of value_shape or_le16
answered = refl

reserved : normalized_status 0xc4 ≡ 0
unfolding normalized_status
reserved = refl

dispatch-IsReply_example : IsReply frame.header response 10 0x0d
dispatch-IsReply_example =
    dispatch-IsReply server request 100 frame response info (omega arith) decoded answered

discover_all_lists_example :
    (o : Result ⊎ Listing) × ((discover_all entries (0 ∷ 0 ∷ 2 ∷ []) 0x18 100 ≡ some o)
      × Outcome entries
          (get_or {A = ℕ} (0 ∷ 0 ∷ 2 ∷ []) 2 0)
          (or_le16 (get_or {A = ℕ} (0 ∷ 0 ∷ 2 ∷ []) 0 0) (get_or {A = ℕ} (0 ∷ 0 ∷ 2 ∷ []) 1 0))
          (room_of 0x18 100)
          0
          []
          o)
discover_all_lists_example = discover_all_lists entries (0 ∷ 0 ∷ 2 ∷ []) 0x18 100 (omega arith)
