-- ===== src/ZclAttributes.antt =====
-- src/zcl_attributes.c: the check of an attribute table, and the Read Attributes command over it.
pub mod Table
pub mod Room
mod Tests
use cc2530_zigbee.Base.{
  ℕ, zero, suc, ◌+◌, ◌-◌, ◌*◌, ◌/◌, ◌%◌, ◌^◌, ◌⊎◌, inl, inr, bit_and, bit_or, bit_xor, Bool, true,
  false, ◌&&◌, ◌||◌, not, ltb, leb, ◌==◌, ◌!=◌, if◌then◌else◌, Option, none, some, List, [], ◌∷◌,
  ◌++◌, length, get_or, take, drop, u8, or_le16, sub8, Source, bytes, null, source_bytes,
}
use cc2530_zigbee.ZclFrame
use cc2530_zigbee.ZclFrame.{
  Result, ok, invalid_argument, invalid_table, unsupported_command, unsupported_context,
  buffer_too_small, Header, FrameInfo,
}
use cc2530_zigbee.ZclValue
use cc2530_zigbee.ZclValue.{Value}

-- `zcl_attribute_t`
pub record Attribute : Type 0 where
  pub id : ℕ
  pub readable : ℕ
  pub value : Value

-- `zcl_attribute_set_t`; none is a NULL table.
pub record AttributeSet : Type 0 where
  pub attributes : Option (List Attribute)
  pub count : ℕ
  pub side : ℕ
  pub manufacturer_specific : ℕ
  pub manufacturer_code : ℕ

abbrev pub no_table : Option (List Attribute) → Bool
no_table none = true
no_table (some entries) = false

-- The entries that the loops run over.
abbrev pub declared : Option (List Attribute) → ℕ → List Attribute
declared none count = []
declared (some entries) count = take count entries

abbrev pub seen : ℕ → List ℕ → Bool
seen id [] = false
seen id (x ∷ xs) = (id == x) || seen id xs

-- The tests of one entry that do not look at the others.
abbrev pub bad_entry : ℕ → Attribute → Bool
bad_entry specific a =
    ltb 1 a.readable || (specific == 0 && ((leb 0x5000 a.id && ltb a.id 0xf000) || a.id == 0xffff))

-- The loop of `zcl_attr_set_check`, with the ids of the entries before.
unfoldable pub check_entries : ℕ → List ℕ → List Attribute → Result
check_entries specific prior [] = ok
check_entries specific prior (a ∷ rest) =
    let later = check_entries specific (a.id ∷ prior) rest in
    if bad_entry specific a || seen a.id prior then invalid_table else later

-- `zcl_attr_set_check`
unfoldable pub check_set : Option AttributeSet → Result
check_set none = invalid_argument
check_set (some s) =
    if ltb 16 s.count
      || ltb 1 s.side
      || ltb 1 s.manufacturer_specific
      || (no_table s.attributes && s.count != 0)
    then invalid_table
    else check_entries s.manufacturer_specific [] (declared s.attributes s.count)

-- The search for an id.
abbrev pub find : ℕ → List Attribute → Option Attribute
find id [] = none
find id (a ∷ rest) = if a.id == id then some a else find id rest

abbrev pub plain_record : ℕ → ℕ → List ℕ
plain_record id status = u8 id ∷ u8 (id / 2 ^ 8) ∷ status ∷ []

-- The record of a readable attribute, by the answer of `zcl_value_encode`; a Result is returned.
unfoldable pub value_record : ℕ → ℕ → ℕ → Result × Option (List ℕ) → Result ⊎ List ℕ
value_record remaining id type (ok, some encoded) =
    inr (
      if ltb remaining 4
      then plain_record id 0x89
      else u8 id ∷ u8 (id / 2 ^ 8) ∷ 0 ∷ type ∷ encoded)
value_record remaining id type (buffer_too_small, encoded) = inr (plain_record id 0x89)
value_record remaining id type (r, encoded) = inl r

-- The body of the loop of `zcl_read_attrs_unicast`.
unfoldable pub one_record : ℕ → ℕ → Option Attribute → Result ⊎ List ℕ
one_record remaining id none = inr (plain_record id 0x86)
one_record remaining id (some a) =
    if a.readable == 0
    then inr (plain_record id 0x7e)
    else value_record remaining id a.value.type
        (ZclValue.encode true a.value (if leb 4 remaining then remaining - 4 else 0))

-- The loop over the ids: the payload and `returned_count`. `room` is `budget - header_size`.
unfoldable pub read_records : List Attribute → ℕ → List ℕ → List ℕ → ℕ → Result × List ℕ × ℕ
read_records entries room (low ∷ high ∷ ids) payload count =
    elim (ltb (sub8 room (length payload)) 3) [
      | true ↦ (ok, payload, count)
      | false ↦
          elim (one_record (sub8 room (length payload)) (or_le16 low high)
            (find (or_le16 low high) entries)) [
              | inl r ↦ (r, payload, count)
              | inr bytes' ↦ read_records entries room ids (payload ++ bytes') (u8 (count + 1))
            ]
    ]
read_records entries room _ payload count = (ok, payload, count)

-- `zcl_read_info_t`
pub record ReadInfo : Type 0 where
  pub length : ℕ
  pub command_id : ℕ
  pub requested_count : ℕ
  pub returned_count : ℕ

-- The header of the reply.
abbrev pub reply_header : Header → ℕ → Header
reply_header h command = record h {
  flags = u8 (bit_or (bit_xor h.flags 0x08) 0x10);
  command_id = command;
}

-- The outputs, by the answer of `zcl_frame_encode`.
abbrev pub replied : Header → ℕ → ℕ → Result × Option (List ℕ) → Result × Option (List ℕ × ReadInfo)
replied h requested returned (ok, some response) = (
  ok,
  some (
    response,
    record {
      length = length response;
      command_id = h.command_id;
      requested_count = requested;
      returned_count = returned;
    },
  ),
)
replied h requested returned (r, out) = (r, none)

-- The end of `zcl_read_attrs_unicast`: the payload of the reply and the two counts
unfoldable pub reply : Header → Result → List ℕ → ℕ → ℕ → ℕ → Result × Option (List ℕ × ReadInfo)
reply h ok payload requested returned capacity =
    replied h requested returned (ZclFrame.encode true h (bytes payload) capacity)
reply h r payload requested returned capacity = (r, none)

-- The selectors of a frame are those of the set.
abbrev pub in_context : AttributeSet → Header → Bool
in_context s h =
    (if bit_and h.flags 0x08 != 0 then 1 else 0) == s.side
    && (if bit_and h.flags 0x04 != 0 then 1 else 0) == s.manufacturer_specific
    && (s.manufacturer_specific == 0 || h.manufacturer_code == s.manufacturer_code)

-- `budget`
abbrev pub budget_of : ℕ → ℕ
budget_of capacity = if ltb capacity 100 then capacity else 100

-- `zcl_read_attrs_unicast` after the request has been decoded
unfoldable pub read_frame :
    AttributeSet → List ℕ → ℕ → FrameInfo → Result × Option (List ℕ × ReadInfo)
unfolding read_records
read_frame s request capacity frame =
    if frame.header.type != 0 || frame.header.command_id != 0
    then (unsupported_command, none)
    else if not (in_context s frame.header)
    then (unsupported_context, none)
    else if frame.payload_length == 0 || bit_and frame.payload_length 1 != 0
    then reply (reply_header frame.header 0x0b) ok (0 ∷ 0x80 ∷ []) 0 0 capacity
    else if ltb (budget_of capacity) (frame.payload_offset + 3)
    then (buffer_too_small, none)
    else (let (r, payload, returned) =
          read_records (declared s.attributes s.count) (budget_of capacity - frame.payload_offset)
            (take frame.payload_length (drop frame.payload_offset request)) [] 0 in
        reply (reply_header frame.header 1) r payload (frame.payload_length / 2) returned capacity)

-- What follows the decoding of the request.
unfoldable pub read_decoded :
    AttributeSet → List ℕ → ℕ → Result × Option FrameInfo → Result × Option (List ℕ × ReadInfo)
read_decoded s request capacity (ok, some frame) = read_frame s request capacity frame
read_decoded s request capacity (r, out) = (r, none)

-- What follows the check of the set.
unfoldable pub read_checked :
    AttributeSet → Source → ℕ → Result → Result × Option (List ℕ × ReadInfo)
read_checked s request capacity ok =
    read_decoded s (source_bytes request) capacity (ZclFrame.decode request true)
read_checked s request capacity r = (r, none)

-- `zcl_read_attrs_unicast`: `outputs` says that the response and the info are not NULL. The option
-- holds what is stored in the response and the info.
unfoldable pub read_attrs :
    Option AttributeSet → Source → Bool → ℕ → Result × Option (List ℕ × ReadInfo)
read_attrs (some s) (bytes request) true capacity =
    read_checked s (bytes request) capacity (check_set (some s))
read_attrs _ _ _ capacity = (invalid_argument, none)
