-- ===== src/ZclFrame/RoundTrip.antt =====
-- The two directions of the ZCL codec.
use cc2530_zigbee.Base.{
  ℕ, zero, suc, u8, ◌+◌, ◌-◌, ◌*◌, ◌/◌, ◌%◌, ◌^◌, ◌≤◌, ◌<◌, ◌≡◌, ◌↔◌, refl, sym, ◌⊎◌, bit_and,
  bit_or, true, some, List, [], ◌∷◌, length, get_or, drop, u8, bytes, IsByte, IsBytes,
  or_le16-eq-add, mask_0x03, mask_0x04, mask_0x1c, mask_0xe0, mask_0xe3, arith, length-drop,
  byte_law, holds_below,
}
use cc2530_zigbee.ZclFrame.{ok, Header, FrameInfo, size_of, read_header, decode, emit_frame, encode}

-- The fields fit their C types, and the manufacturer code is zero where it is not sent.
pub record Fits (h : Header) : Type 0 where
  pub flags : IsByte h.flags
  pub manufacturer_code : h.manufacturer_code < 2 ^ 16
  pub unsent : (h.flags / 4 % 2 ≡ 1) ⊎ (h.manufacturer_code ≡ 0)

-- `zcl_frame_encode` succeeds exactly on the two frame types and three flags, when frame and
-- capacity suffice, and then stores the emitted frame.
encode_iff :
    (h : Header) (p b : List ℕ) (capacity : ℕ)
    → (encode true h (bytes p) capacity ≡ (ok, some b)) ↔ (
        (h.type ≤ 1)
        × (bit_and h.flags 0xe3 ≡ 0)
        × (size_of h.flags + length p ≤ 100)
        × (size_of h.flags + length p ≤ capacity)
        × (b ≡ emit_frame h p))
unfolding encode
encode_iff h p b capacity = ground arith

pub decode_ok_iff :
    (b : List ℕ) (info : FrameInfo)
    → (decode (bytes b) true ≡ (ok, some info)) ↔ (
        (0 < length b)
        × (length b ≤ 100)
        × (bit_and (get_or b 0 0) 3 ≤ 1)
        × ((bit_and (get_or b 0 0) 0x04 ≡ 0) ⊎ (bit_and (get_or b 0 0) 0xe0 ≡ 0))
        × (size_of (get_or b 0 0) ≤ length b)
        × (info ≡ record {
          header = read_header b;
          ignored_control_bits = bit_and (get_or b 0 0) 0xe0;
          payload_offset = size_of (get_or b 0 0);
          payload_length = length b - size_of (get_or b 0 0);
        }))
unfolding decode
decode_ok_iff b info = ground arith

control_or : (t f : ℕ) → t ≤ 1 → IsByte f → bit_and f 0xe3 ≡ 0 → bit_or t f ≡ t + f
unfolding holds_below
control_or zero f le h e = byte_law (λ y. bit_or 0 y) (λ y. 0 + y) f refl h
control_or (suc zero) f le h e =
    let flags : f / 4 % 8 * 4 ≡ f = omega (arith, mask_0xe3 f h) in
    rw flags at (byte_law (λ y. bit_or 1 (y / 4 % 8 * 4)) (λ y. 1 + y / 4 % 8 * 4) f refl h)
control_or (suc (suc t)) f le h e = absurd (omega arith)

-- The control byte of an encoded header, and the fields that are read back from it.
control_fields :
    (t f : ℕ)
    → t ≤ 1
    → IsByte f
    → bit_and f 0xe3 ≡ 0
    → (bit_or t f ≡ t + f)
      × (bit_and (t + f) 3 ≡ t)
      × (bit_and (t + f) 0x1c ≡ f)
      × (bit_and (t + f) 0xe0 ≡ 0)
      × (bit_and (t + f) 0x04 ≡ bit_and f 0x04)
control_fields t f le h e =
    let small : t + f < 2 ^ 8 = omega (arith, mask_0xe3 f h) in
    (
      control_or t f le h e,
      omega (arith, mask_0xe3 f h, mask_0x03 (t + f) small),
      omega (arith, mask_0xe3 f h, mask_0x1c (t + f) small),
      omega (arith, mask_0xe3 f h, mask_0xe0 (t + f) small),
      omega (arith, mask_0xe3 f h, mask_0x04 (t + f) small, mask_0x04 f h),
    )

decode-emit_frame :
    (h : Header) (p : List ℕ)
    → Fits h
    → h.type ≤ 1
    → bit_and h.flags 0xe3 ≡ 0
    → size_of h.flags + length p ≤ 100
    → decode (bytes (emit_frame h p)) true ≡ (
      ok,
      some (record {
        header = h;
        ignored_control_bits = 0;
        payload_offset = size_of h.flags;
        payload_length = length p;
      }),
    )
unfolding emit_frame decode read_header
decode-emit_frame h p f le e fits = ground (
  arith,
  control_fields h.type h.flags le f.flags e,
  mask_0x04 h.flags f.flags,
  or_le16-eq-add (u8 h.manufacturer_code) (u8 (h.manufacturer_code / 2 ^ 8)),
)

drop-emit_frame : (h : Header) (p : List ℕ) → drop (size_of h.flags) (emit_frame h p) ≡ p
unfolding emit_frame
drop-emit_frame h p = ground arith

-- For a header whose fields fit their C types, and whose manufacturer code is zero where it is not
-- sent, what `zcl_frame_encode` stores decodes to the header given and no ignored bits, and its bytes
-- from the payload offset on are the payload.
pub decode-encode_zcl :
    (h : Header) (p : List ℕ) (capacity : ℕ) {b : List ℕ}
    → Fits h
    → encode true h (bytes p) capacity ≡ (ok, some b)
    → (decode (bytes b) true ≡ (
      ok,
      some (record {
        header = h;
        ignored_control_bits = 0;
        payload_offset = size_of h.flags;
        payload_length = length p;
      }),
    ))
      × (drop (size_of h.flags) b ≡ p)
decode-encode_zcl h p capacity {b} f e =
    let (le, flags, fits, room, is) = (encode_iff h p b capacity).0 e in
    rw is (decode-emit_frame h p f le flags fits, drop-emit_frame h p)

control_union : (x : ℕ) → IsByte x → bit_and x 0xe0 ≡ 0 → bit_or (bit_and x 3) (bit_and x 0x1c) ≡ x
unfolding holds_below
control_union x h e =
    let low : x % 32 ≡ x = omega (arith, mask_0xe0 x h) in
    rw low at
      (byte_law (λ y. bit_or (bit_and (y % 32) 3) (bit_and (y % 32) 0x1c)) (λ y. y % 32) x refl h)

control_flags :
    (x : ℕ)
    → IsByte x
    → (bit_and (bit_and x 0x1c) 0xe3 ≡ 0) × (bit_and (bit_and x 0x1c) 0x04 ≡ bit_and x 0x04)
unfolding holds_below
control_flags x h = (
  byte_law (λ y. bit_and (bit_and y 0x1c) 0xe3) (λ y. 0) x refl h,
  byte_law (λ y. bit_and (bit_and y 0x1c) 0x04) (λ y. bit_and y 0x04) x refl h,
)

emit_frame-read_header :
    (b : List ℕ)
    → IsBytes b
    → 0 < length b
    → size_of (get_or b 0 0) ≤ length b
    → bit_and (get_or b 0 0) 0xe0 ≡ 0
    → emit_frame (read_header b) (drop (size_of (get_or b 0 0)) b) ≡ b
unfolding emit_frame read_header
emit_frame-read_header [] h pos le e = absurd (omega arith)
emit_frame-read_header (b0 ∷ []) h pos le e = ground arith
emit_frame-read_header (b0 ∷ b1 ∷ []) h pos le e = ground arith
emit_frame-read_header (b0 ∷ b1 ∷ b2 ∷ []) h pos le e =
    ground (arith, control_union b0 h.0, control_flags b0 h.0)
emit_frame-read_header (b0 ∷ b1 ∷ b2 ∷ b3 ∷ []) h pos le e =
    ground (arith, control_union b0 h.0, control_flags b0 h.0)
emit_frame-read_header (b0 ∷ b1 ∷ b2 ∷ b3 ∷ b4 ∷ p) h pos le e =
    ground (arith, control_union b0 h.0, control_flags b0 h.0, or_le16-eq-add b1 b2)

read_header_control :
    (b : List ℕ)
    → ((read_header b).type ≡ bit_and (get_or b 0 0) 3)
      × ((read_header b).flags ≡ bit_and (get_or b 0 0) 0x1c)
unfolding read_header
read_header_control b = ground arith

pub get_or-IsByte : (b : List ℕ) → IsBytes b → IsByte (get_or b 0 0)
get_or-IsByte [] h = omega arith
get_or-IsByte (x ∷ b) h = h.0

-- A frame that `zcl_frame_decode` accepts without ignored bits is the one that `zcl_frame_encode`
-- stores for the header and the payload decoded from it, given room for it.
pub encode-decode_zcl :
    (b : List ℕ) (capacity : ℕ) {info : FrameInfo}
    → IsBytes b
    → decode (bytes b) true ≡ (ok, some info)
    → info.ignored_control_bits ≡ 0
    → length b ≤ capacity
    → encode true info.header (bytes (drop info.payload_offset b)) capacity ≡ (ok, some b)
encode-decode_zcl b capacity {info} h e clean room =
    let (pos, most, type, layout, least, is) = (decode_ok_iff b info).0 e in
    let control = control_flags (get_or b 0 0) (get_or-IsByte b h) in
    let read = read_header_control b in
    let size : size_of (read_header b).flags ≡ size_of (get_or b 0 0) = ground arith in
    let plain : bit_and (get_or b 0 0) 0xe0 ≡ 0 = ground arith in
    rw is (
      (encode_iff (read_header b) (drop (size_of (get_or b 0 0)) b) b capacity).1 (
        ground arith,
        ground arith,
        omega (arith, size, length-drop (size_of (get_or b 0 0)) b),
        omega (arith, size, length-drop (size_of (get_or b 0 0)) b),
        sym (emit_frame-read_header b h pos least plain),
      ))
