-- ===== src/ZclValue/RoundTrip.antt =====
-- What the value codec encodes is what it decodes, whatever follows in the enclosing record.
use cc2530_zigbee.Base.{
  ℕ, zero, suc, ◌-◌, ◌≤◌, ◌≡◌, ◌≢◌, refl, bit_and, Bool, Bool-cases, inl, inr, none, true, ltb,
  ◌==◌, ◌!=◌, ◌&&◌, if◌then◌else◌, Option, some, List, ◌∷◌, ◌++◌, length, take, drop, bytes, IsByte,
  arith, holds_below, holds_below_elim, length-append, get_or-append, take-append,
}
use cc2530_zigbee.ZclFrame.{ok}
use cc2530_zigbee.ZclValue.{
  ValueInfo, value_shape, kind_boolean, kind_string, kind_signed, non_value_pattern, pattern_from,
  decode, decode_string, decode_fixed, encode, encode_string, encode_fixed,
}

-- A Boolean is one octet, and no kind is wider than 8.
abbrev shape_test : ℕ → Bool
shape_test type =
    if value_shape type == 0xff
    then true
    else (ltb (bit_and (value_shape type) 0x0f) 9)
      && (if bit_and (value_shape type) 0xf0 == kind_boolean
          then bit_and (value_shape type) 0x0f == 1
          else true)

shape_law :
    (type : ℕ)
    → IsByte type
    → value_shape type ≢ 0xff
    → (bit_and (value_shape type) 0x0f ≤ 8)
      × ((bit_and (value_shape type) 0xf0 ≡ kind_boolean) → bit_and (value_shape type) 0x0f ≡ 1)
unfolding holds_below value_shape
shape_law type h ne = ground (arith, holds_below_elim 256 shape_test type refl h)

pattern-append :
    (kind expected : ℕ) (xs ys : List ℕ) (n : ℕ)
    → n ≤ length xs
    → pattern_from kind expected (xs ++ ys) n ≡ pattern_from kind expected xs n
unfolding pattern_from
pattern-append kind expected xs ys zero h = refl
pattern-append kind expected xs ys (suc n) h = rw (get_or-append xs ys n 0 (omega arith)) (
    rw (pattern-append kind (if kind == kind_signed then 0 else expected) xs ys n (omega arith))
      refl)

non_value-append :
    (kind : ℕ) (xs ys : List ℕ) (n : ℕ)
    → n ≤ length xs
    → non_value_pattern kind (xs ++ ys) n ≡ non_value_pattern kind xs n
unfolding non_value_pattern
non_value-append kind xs ys n h =
    rw (pattern-append kind (if kind == kind_signed then 0x80 else 0xff) xs ys n h) refl

-- The info of a value of `n` octets that is encoded in `size` octets.
abbrev pub info_of : ℕ → ℕ → ℕ → ℕ → ValueInfo
info_of type n size non_value = record {
  type = type;
  data_offset = size - n;
  data_length = n;
  encoded_length = size;
  non_value = non_value;
}

string_again :
    (type flag : ℕ) (data' rest b : List ℕ) (capacity : ℕ)
    → encode_string
        (record { type = type; string_non_value = flag; data_source = bytes data' })
        capacity
      ≡ (ok, some b)
    → (decode_string type (b ++ rest) ≡ (ok, some (info_of type (length data') (length b) flag)))
      × (b ≡ (if flag != 0 then 0xff else length data') ∷ data')
unfolding encode_string decode_string
string_again type flag data' rest b capacity e = ground (arith, length-append data' rest)

fixed_again :
    (type kind width : ℕ) (data' rest b : List ℕ) (capacity flag : ℕ)
    → width ≤ 8
    → ((kind ≡ kind_boolean) → width ≡ 1)
    → encode_fixed kind width
        (record { type = type; string_non_value = flag; data_source = bytes data' })
        capacity
      ≡ (ok, some b)
    → (decode_fixed type kind width (b ++ rest)
        ≡ (ok, some (info_of type (length data') (length b) (non_value_pattern kind data' width))))
      × (b ≡ data')
unfolding encode_fixed decode_fixed
fixed_again type kind width data' rest b capacity flag small one e = ground (
  arith,
  length-append data' rest,
  non_value-append kind data' rest width,
  get_or-append data' rest 0 0,
)

-- Whether a value is its type's non-value: what the caller says of a string, and the pattern of
-- the octets of any other kind.
abbrev pub non_value_of : ℕ → ℕ → List ℕ → ℕ
non_value_of type flag data' =
    if bit_and (value_shape type) 0xf0 == kind_string
    then flag
    else non_value_pattern (bit_and (value_shape type) 0xf0) data' (bit_and (value_shape type) 0x0f)

-- The data, after the length octet of a string.
abbrev prefixed : Option ℕ → List ℕ → List ℕ
prefixed none data' = data'
prefixed (some x) data' = x ∷ data'

-- The octets at the offset of the data are the data.
data_there :
    (first : Option ℕ) (data' rest : List ℕ)
    → take
        (length data')
        (drop (length (prefixed first data') - length data') (prefixed first data' ++ rest))
      ≡ data'
data_there none data' rest =
    let zero_offset : length data' - length data' ≡ 0 = omega arith in
    rw zero_offset (take-append data' rest (length data') refl)
data_there (some x) data' rest =
    let one_offset : suc (length data') - length data' ≡ 1 = omega arith in
    rw one_offset (take-append data' rest (length data') refl)

encoded_again :
    (type flag : ℕ) (data' rest b : List ℕ) (capacity : ℕ)
    → IsByte type
    → encode true
        (record { type = type; string_non_value = flag; data_source = bytes data' })
        capacity
      ≡ (ok, some b)
    → (decode type (bytes (b ++ rest)) true
        ≡ (ok, some (info_of type (length data') (length b) (non_value_of type flag data'))))
      × ((first : Option ℕ) × (b ≡ prefixed first data'))
unfolding encode decode
encoded_again type flag data' rest b capacity t e = elim (Bool-cases (value_shape type == 0xff)) [
  | inl bad ↦ absurd (ground arith)
  | inr known ↦ elim (Bool-cases (bit_and (value_shape type) 0xf0 == kind_string)) [
    | inl is_string ↦
        let (d, is) = string_again type flag data' rest b capacity (rw (known, is_string) at e) in
        rw (known, is_string)
          (ground (arith, d, is), (some (if flag != 0 then 0xff else length data'), is))
    | inr is_fixed ↦
        let (small, one) = shape_law type t (ground arith) in
        let (d, is) =
          fixed_again type (bit_and (value_shape type) 0xf0) (bit_and (value_shape type) 0x0f) data'
            rest b capacity flag small one (rw (known, is_fixed) at e) in
        rw (known, is_fixed) (d, (none, is))
  ]
]

-- What `zcl_value_encode` stores for a value decodes, by its type and with anything after it, to
-- an info with the encoded length, with the value's data at its offset, and with its non-value flag.
pub decode-encode_value :
    (type flag : ℕ) (data' rest : List ℕ) (capacity : ℕ) {b : List ℕ}
    → IsByte type
    → encode true
        (record { type = type; string_non_value = flag; data_source = bytes data' })
        capacity
      ≡ (ok, some b)
    → (decode type (bytes (b ++ rest)) true
        ≡ (ok, some (info_of type (length data') (length b) (non_value_of type flag data'))))
      × (take (length data') (drop (length b - length data') (b ++ rest)) ≡ data')
decode-encode_value type flag data' rest capacity {b} t e =
    let (d, (first, is)) = encoded_again type flag data' rest b capacity t e in
    (d, rw is (data_there first data' rest))
