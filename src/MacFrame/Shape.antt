-- ===== src/MacFrame/Shape.antt =====
-- The masks of src/mac_frame.c as arithmetic, and what the accepted headers have in common.
use cc2530_zigbee.Base.{
  ℕ, true, ◌+◌, ◌*◌, ◌/◌, ◌%◌, ◌^◌, ◌≤◌, ◌<◌, ◌≡◌, refl, bit_and, bit_or, some, ◌==◌, ==_iff,
  byte_law, holds_below, holds_below_elim, arith, IsByte,
}
use cc2530_zigbee.MacFrame.{Header, Sizes, ok, header_shape, sizes_of}

module _ (x : ℕ) (h : x < 2 ^ 8) where
  pub mask_0x07 : bit_and x 0x07 ≡ x % 8
  unfolding holds_below
  mask_0x07 = byte_law (λ y. bit_and y 0x07) (λ y. y % 8) x refl h

  pub mask_0x40 : bit_and x 0x40 ≡ x / 64 % 2 * 64
  unfolding holds_below
  mask_0x40 = byte_law (λ y. bit_and y 0x40) (λ y. y / 64 % 2 * 64) x refl h

  pub mask_0x60 : bit_and x 0x60 ≡ x / 32 % 4 * 32
  unfolding holds_below
  mask_0x60 = byte_law (λ y. bit_and y 0x60) (λ y. y / 32 % 4 * 32) x refl h

  mask_0x8f : bit_and x 0x8f ≡ x / 128 * 128 + x % 16
  unfolding holds_below
  mask_0x8f = byte_law (λ y. bit_and y 0x8f) (λ y. y / 128 * 128 + y % 16) x refl h

  pub mask_0xf8 : bit_and x 0xf8 ≡ x / 8 * 8
  unfolding holds_below
  mask_0xf8 = byte_law (λ y. bit_and y 0xf8) (λ y. y / 8 * 8) x refl h

abbrev type_test : ℕ → ℕ → ℕ
type_test t k = bit_or t (k * 16)

type_table : holds_below 4 (λ t. holds_below 8 (λ k. type_test t k == t + k * 16)) ≡ true
unfolding holds_below
type_table = refl

-- The first byte of a frame.
pub first_byte : (t f : ℕ) → t ≤ 3 → f < 128 → f % 16 ≡ 0 → bit_or t f ≡ t + f
first_byte t f p q r =
    let row =
      holds_below_elim 4 (λ t. holds_below 8 (λ k. type_test t k == t + k * 16)) t type_table
        (omega arith) in
    let cell = holds_below_elim 8 (λ k. type_test t k == t + k * 16) (f / 16) row (omega arith) in
    let here : f / 16 * 16 ≡ f = omega arith in (==_iff _ _).0 (rw here at cell)

abbrev modes_test : ℕ → ℕ → ℕ → ℕ
modes_test d v s = bit_or (bit_or (d * 2 ^ 2) (v * 2 ^ 4)) (s * 2 ^ 6)

modes_table :
    holds_below 4
      (λ d. holds_below 2 (λ v. holds_below 4 (λ s. modes_test d v s == d * 4 + v * 16 + s * 64)))
    ≡ true
unfolding holds_below
modes_table = refl

-- The second byte of a frame.
pub second_byte :
    (d v s : ℕ)
    → d ≤ 3
    → v ≤ 1
    → s ≤ 3
    → bit_or (bit_or (d * 2 ^ 2) (v * 2 ^ 4)) (s * 2 ^ 6) ≡ d * 4 + v * 16 + s * 64
second_byte d v s p q r =
    let plane =
      holds_below_elim 4
        (λ d. holds_below 2 (λ v. holds_below 4 (λ s. modes_test d v s == d * 4 + v * 16 + s * 64)))
        d modes_table (omega arith) in
    let row =
      holds_below_elim 2 (λ v. holds_below 4 (λ s. modes_test d v s == d * 4 + v * 16 + s * 64)) v
        plane (omega arith) in
    let cell =
      holds_below_elim 4 (λ s. modes_test d v s == d * 4 + v * 16 + s * 64) s row (omega arith) in
    (==_iff _ _).0 cell

-- The headers that `header_shape` accepts, and the sizes that it stores.
pub record Shaped (h : Header) (z : Sizes) : Type 0 where
  pub sizes : z ≡ sizes_of h
  pub type : h.type ≤ 3
  pub version : h.version ≤ 1
  pub flags : (h.flags < 128) × (h.flags % 16 ≡ 0)
  pub destination_mode : h.destination_mode ≤ 3
  pub source_mode : h.source_mode ≤ 3

pub header_shape-Shaped :
    (h : Header) (z : Sizes) → IsByte h.flags → header_shape h ≡ (ok, some z) → Shaped h z
unfolding header_shape
header_shape-Shaped h z b e = record {
  sizes = ground (arith, mask_0x40 h.flags b, mask_0x60 h.flags b);
  type = ground arith;
  version = ground arith;
  flags = ground (arith, mask_0x8f h.flags b);
  destination_mode = ground arith;
  source_mode = ground arith;
}
