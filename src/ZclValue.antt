-- ===== src/ZclValue.antt =====
-- src/zcl_value.c: the codec of one ZCL value, whose type is known from elsewhere.
pub mod RoundTrip
mod Tests
use cc2530_zigbee.Base.{
  ℕ, zero, suc, ◌+◌, ◌-◌, ◌*◌, ◌/◌, ◌^◌, bit_and, bit_or, Bool, true, false, ◌&&◌, ◌||◌, not, ltb,
  leb, ◌==◌, ◌!=◌, if◌then◌else◌, Option, none, some, List, [], ◌∷◌, ◌++◌, length, get_or, u8,
  Source, bytes, null, source_length, source_bytes, is_missing,
}
use cc2530_zigbee.ZclFrame.{
  Result, ok, invalid_argument, truncated, too_long, buffer_too_small, unsupported_data_type,
  invalid_value,
}

-- The kinds in the high nibble of a shape
abbrev pub kind_raw : ℕ
kind_raw = 0

abbrev pub kind_unsigned : ℕ
kind_unsigned = 0x10

abbrev pub kind_signed : ℕ
kind_signed = 0x20

abbrev pub kind_boolean : ℕ
kind_boolean = 0x30

abbrev pub kind_string : ℕ
kind_string = 0x40

abbrev pub shape_unsupported : ℕ
shape_unsupported = 0xff

-- `value_shape`
unfoldable pub value_shape : ℕ → ℕ
value_shape type =
    if type == 0
    then kind_raw
    else if (leb 0x08 type && leb type 0x0f) || (leb 0x18 type && leb type 0x2f)
    then u8 (
        bit_or
          (if leb 0x28 type then kind_signed else if leb 0x20 type then kind_unsigned else kind_raw)
          (bit_and type 7 + 1))
    else if type == 0x10
    then bit_or kind_boolean 1
    else if type == 0x30 || type == 0x31
    then u8 (bit_or kind_unsigned (type - 0x30 + 1))
    else if type == 0x41 || type == 0x42
    then kind_string
    else shape_unsupported

-- `zcl_value_type_supported`
abbrev pub supported : ℕ → Bool
supported type = value_shape type != shape_unsupported

-- The loop of `non_value_pattern`, from the octet before `width` down.
unfoldable pub pattern_from : ℕ → ℕ → List ℕ → ℕ → ℕ
pattern_from kind expected data' zero = 1
pattern_from kind expected data' (suc width) =
    let rest = pattern_from kind (if kind == kind_signed then 0 else expected) data' width in
    if get_or data' width 0 != expected then 0 else rest

-- `non_value_pattern`
unfoldable pub non_value_pattern : ℕ → List ℕ → ℕ → ℕ
non_value_pattern kind data' width =
    if kind == kind_raw
    then 0
    else pattern_from kind (if kind == kind_signed then 0x80 else 0xff) data' width

-- `zcl_value_info_t`
pub record ValueInfo : Type 0 where
  pub type : ℕ
  pub data_offset : ℕ
  pub data_length : ℕ
  pub encoded_length : ℕ
  pub non_value : ℕ

-- `zcl_value_t`, whose `data` and `data_length` are the source
pub record Value : Type 0 where
  pub type : ℕ
  pub string_non_value : ℕ
  pub data_source : Source

-- `body[0] != 0 && body[0] != 1 && body[0] != 0xffu`, of a Boolean
abbrev pub no_boolean : ℕ → List ℕ → Bool
no_boolean kind body =
    kind == kind_boolean && get_or body 0 0 != 0 && get_or body 0 0 != 1 && get_or body 0 0 != 0xff

-- `zcl_value_decode` of a string, of which there is a first octet
unfoldable pub decode_string : ℕ → List ℕ → Result × Option ValueInfo
decode_string type body =
    let width = if get_or body 0 0 == 0xff then 0 else get_or body 0 0 in
    if ltb (length body) (1 + width) then (truncated, none) else (
      ok,
      some (record {
        type = type;
        data_offset = 1;
        data_length = width;
        encoded_length = u8 (1 + width);
        non_value = if get_or body 0 0 == 0xff then 1 else 0;
      }),
    )

-- `zcl_value_decode` of any other kind
unfoldable pub decode_fixed : ℕ → ℕ → ℕ → List ℕ → Result × Option ValueInfo
decode_fixed type kind width body =
    if ltb (length body) width
    then (truncated, none)
    else if no_boolean kind body
    then (invalid_value, none)
    else (
      ok,
      some (record {
        type = type;
        data_offset = 0;
        data_length = width;
        encoded_length = u8 width;
        non_value = non_value_pattern kind body width;
      }),
    )

unfoldable pub decode_bytes : ℕ → List ℕ → Result × Option ValueInfo
decode_bytes type body =
    let shape = value_shape type in
    if shape == shape_unsupported
    then (unsupported_data_type, none)
    else if bit_and shape 0xf0 == kind_string
    then (if length body == 0 then (truncated, none) else decode_string type body)
    else decode_fixed type (bit_and shape 0xf0) (bit_and shape 0x0f) body

-- `zcl_value_decode`: the body with its length, and whether `result` is not NULL.
unfoldable pub decode : ℕ → Source → Bool → Result × Option ValueInfo
unfolding decode_bytes
decode type (null n) result = (invalid_argument, none)
decode type (bytes body) false = (invalid_argument, none)
decode type (bytes body) true = decode_bytes type body

-- `zcl_value_encode` of a string
unfoldable pub encode_string : Value → ℕ → Result × Option (List ℕ)
encode_string v capacity =
    let count = source_length v.data_source in
    if ltb 1 v.string_non_value || (v.string_non_value != 0 && count != 0)
    then (invalid_value, none)
    else if ltb 254 count
    then (too_long, none)
    else if ltb capacity (u8 (1 + count))
    then (buffer_too_small, none)
    else (
      ok,
      some ((if v.string_non_value != 0 then 0xff else u8 count) ∷ source_bytes v.data_source),
    )

-- `zcl_value_encode` of any other kind
unfoldable pub encode_fixed : ℕ → ℕ → Value → ℕ → Result × Option (List ℕ)
encode_fixed kind width v capacity =
    if v.string_non_value != 0 || source_length v.data_source != width
    then (invalid_value, none)
    else if no_boolean kind (source_bytes v.data_source)
    then (invalid_value, none)
    else if ltb capacity width
    then (buffer_too_small, none)
    else (ok, some (source_bytes v.data_source))

-- `zcl_value_encode`: `pointers` says that the value, the body and the length are not NULL. The
-- option is what is stored in the body; its length is `*length`.
unfoldable pub encode : Bool → Value → ℕ → Result × Option (List ℕ)
encode false v capacity = (invalid_argument, none)
encode true v capacity =
    let shape = value_shape v.type in
    if is_missing v.data_source
    then (invalid_argument, none)
    else if shape == shape_unsupported
    then (unsupported_data_type, none)
    else if bit_and shape 0xf0 == kind_string
    then encode_string v capacity
    else encode_fixed (bit_and shape 0xf0) (bit_and shape 0x0f) v capacity
