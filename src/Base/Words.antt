-- ===== src/Base/Words.antt =====
-- Machine words as native numbers, and masks on them. A word of w bits keeps its wrap-around
-- written out; a table over all bytes turns a mask into arithmetic that the tactics read.
use Prim.Native.Nat.{ℕ, zero, suc, ◌+◌, ◌-◌, ◌*◌, ◌/◌, ◌%◌, ◌^◌, ◌<◌, bit_and, bit_or}
use mathlib.Core.Path.{◌≡◌, refl}
use mathlib.Core.Bool.{Bool, true, ◌&&◌}
use mathlib.Core.List.{List, [], ◌∷◌}
use native.Mathlib.Omega.{arith}
use cc2530_zigbee.Base.Tests.{◌==◌, ==_iff}

-- `(uint8_t)x`, `(uint16_t)x` and `(uint32_t)x`
abbrev pub u8 : ℕ → ℕ
u8 x = x % 2 ^ 8

abbrev pub u16 : ℕ → ℕ
u16 x = x % 2 ^ 16

abbrev pub u32 : ℕ → ℕ
u32 x = x % 2 ^ 32

-- `a - b` on uint8_t and uint32_t operands cast back to their type: the modulus is added first,
-- since `-` stops at 0.
abbrev pub sub8 : ℕ → ℕ → ℕ
sub8 a b = (a + 2 ^ 8 - b) % 2 ^ 8

abbrev pub sub32 : ℕ → ℕ → ℕ
sub32 a b = (a + 2 ^ 32 - b) % 2 ^ 32

abbrev pub IsByte : ℕ → Type 0
IsByte x = x < 2 ^ 8

abbrev pub IsBytes : List ℕ → Type 0
IsBytes [] = Unit {0}
IsBytes (x ∷ xs) = IsByte x × IsBytes xs

-- Evaluate a test at every number below a bound.
unfoldable pub holds_below : ℕ → (ℕ → Bool) → Bool
holds_below zero p = true
holds_below (suc n) p = p n && holds_below n p

pub holds_below_elim : (n : ℕ) (p : ℕ → Bool) (x : ℕ) → holds_below n p ≡ true → x < n → p x ≡ true
unfolding holds_below
holds_below_elim zero p x h lt = absurd (omega arith)
holds_below_elim (suc n) p x h lt = ground (arith, holds_below_elim n p x)

-- Two expressions that agree on every byte.
pub byte_law :
    (f g : ℕ → ℕ) (x : ℕ) → holds_below 256 (λ y. f y == g y) ≡ true → x < 2 ^ 8 → f x ≡ g x
byte_law f g x h lt = (==_iff _ _).0 (holds_below_elim 256 (λ y. f y == g y) x h lt)

-- Masks of a byte as arithmetic.
module _ (x : ℕ) (h : x < 2 ^ 8) where
  pub mask_0x03 : bit_and x 0x03 ≡ x % 4
  unfolding holds_below
  mask_0x03 = byte_law (λ y. bit_and y 0x03) (λ y. y % 4) x refl h

  pub mask_0x04 : bit_and x 0x04 ≡ x / 4 % 2 * 4
  unfolding holds_below
  mask_0x04 = byte_law (λ y. bit_and y 0x04) (λ y. y / 4 % 2 * 4) x refl h

  pub mask_0x0f : bit_and x 0x0f ≡ x % 16
  unfolding holds_below
  mask_0x0f = byte_law (λ y. bit_and y 0x0f) (λ y. y % 16) x refl h

  pub mask_0x10 : bit_and x 0x10 ≡ x / 16 % 2 * 16
  unfolding holds_below
  mask_0x10 = byte_law (λ y. bit_and y 0x10) (λ y. y / 16 % 2 * 16) x refl h

  pub mask_0x1c : bit_and x 0x1c ≡ x / 4 % 8 * 4
  unfolding holds_below
  mask_0x1c = byte_law (λ y. bit_and y 0x1c) (λ y. y / 4 % 8 * 4) x refl h

  pub mask_0x20 : bit_and x 0x20 ≡ x / 32 % 2 * 32
  unfolding holds_below
  mask_0x20 = byte_law (λ y. bit_and y 0x20) (λ y. y / 32 % 2 * 32) x refl h

  pub mask_0x90 : bit_and x 0x90 ≡ x / 128 * 128 + x / 16 % 2 * 16
  unfolding holds_below
  mask_0x90 = byte_law (λ y. bit_and y 0x90) (λ y. y / 128 * 128 + y / 16 % 2 * 16) x refl h

  pub mask_0xbf : bit_and x 0xbf ≡ x / 128 * 128 + x % 64
  unfolding holds_below
  mask_0xbf = byte_law (λ y. bit_and y 0xbf) (λ y. y / 128 * 128 + y % 64) x refl h

  pub mask_0xe0 : bit_and x 0xe0 ≡ x / 32 * 32
  unfolding holds_below
  mask_0xe0 = byte_law (λ y. bit_and y 0xe0) (λ y. y / 32 * 32) x refl h

  pub mask_0xe3 : bit_and x 0xe3 ≡ x / 32 * 32 + x % 4
  unfolding holds_below
  mask_0xe3 = byte_law (λ y. bit_and y 0xe3) (λ y. y / 32 * 32 + y % 4) x refl h

  pub mask_0xf0 : bit_and x 0xf0 ≡ x / 16 * 16
  unfolding holds_below
  mask_0xf0 = byte_law (λ y. bit_and y 0xf0) (λ y. y / 16 * 16) x refl h

-- `(uint16_t)((uint16_t)lo | ((uint16_t)hi << 8))`
unfoldable pub or_le16 : ℕ → ℕ → ℕ
or_le16 lo hi = bit_or lo (hi * 2 ^ 8) % 2 ^ 16

le16_table :
    holds_below 256 (λ lo. holds_below 256 (λ hi. bit_or lo (hi * 2 ^ 8) == lo + hi * 256)) ≡ true
unfolding holds_below
le16_table = refl

pub or_le16-eq-add : (lo hi : ℕ) → lo < 2 ^ 8 → hi < 2 ^ 8 → or_le16 lo hi ≡ lo + hi * 256
unfolding or_le16
or_le16-eq-add lo hi p q =
    let row =
      holds_below_elim 256 (λ lo. holds_below 256 (λ hi. bit_or lo (hi * 2 ^ 8) == lo + hi * 256))
        lo le16_table p in
    let cell = holds_below_elim 256 (λ hi. bit_or lo (hi * 2 ^ 8) == lo + hi * 256) hi row q in
    omega (arith, (==_iff _ _).0 cell)

pub or_le16_bytes :
    (lo hi : ℕ)
    → lo < 2 ^ 8
    → hi < 2 ^ 8
    → (u8 (or_le16 lo hi) ≡ lo) × (u8 (or_le16 lo hi / 2 ^ 8) ≡ hi)
or_le16_bytes lo hi p q =
    (omega (arith, or_le16-eq-add lo hi p q), omega (arith, or_le16-eq-add lo hi p q))

-- Two expressions that agree on every 16-bit word, checked a row of 256 at a time.
abbrev row_law : (ℕ → ℕ) → (ℕ → ℕ) → ℕ → Bool
row_law f g hi = holds_below 256 (λ lo. f (hi * 256 + lo) == g (hi * 256 + lo))

pub word_law : (f g : ℕ → ℕ) (x : ℕ) → holds_below 256 (row_law f g) ≡ true → x < 2 ^ 16 → f x ≡ g x
word_law f g x h lt =
    let row = holds_below_elim 256 (row_law f g) (x / 256) h (omega arith) in
    let cell =
      holds_below_elim 256 (λ lo. f (x / 256 * 256 + lo) == g (x / 256 * 256 + lo)) (x % 256) row
        (omega arith) in
    let here : x / 256 * 256 + x % 256 ≡ x = omega arith in (==_iff _ _).0 (rw here at cell)

-- Masks of a 16-bit word as arithmetic.
module _ (x : ℕ) (h : x < 2 ^ 16) where
  pub mask_0x0200 : bit_and x 0x0200 ≡ x / 512 % 2 * 512
  unfolding holds_below
  mask_0x0200 = word_law (λ y. bit_and y 0x0200) (λ y. y / 512 % 2 * 512) x refl h

  pub mask_0x0500 : bit_and x 0x0500 ≡ x / 1024 % 2 * 1024 + x / 256 % 2 * 256
  unfolding holds_below
  mask_0x0500 =
      word_law (λ y. bit_and y 0x0500) (λ y. y / 1024 % 2 * 1024 + y / 256 % 2 * 256) x refl h

  pub mask_0x0800 : bit_and x 0x0800 ≡ x / 2048 % 2 * 2048
  unfolding holds_below
  mask_0x0800 = word_law (λ y. bit_and y 0x0800) (λ y. y / 2048 % 2 * 2048) x refl h

  pub mask_0x1000 : bit_and x 0x1000 ≡ x / 4096 % 2 * 4096
  unfolding holds_below
  mask_0x1000 = word_law (λ y. bit_and y 0x1000) (λ y. y / 4096 % 2 * 4096) x refl h

  pub mask_0xc7ff : bit_and x 0xc7ff ≡ x / 16384 * 16384 + x % 2048
  unfolding holds_below
  mask_0xc7ff = word_law (λ y. bit_and y 0xc7ff) (λ y. y / 16384 * 16384 + y % 2048) x refl h

  pub mask_0xff00 : bit_and x 0xff00 ≡ x / 256 * 256
  unfolding holds_below
  mask_0xff00 = word_law (λ y. bit_and y 0xff00) (λ y. y / 256 * 256) x refl h

  pub mask_0x0003 : bit_and x 0x0003 ≡ x % 4
  unfolding holds_below
  mask_0x0003 = word_law (λ y. bit_and y 0x0003) (λ y. y % 4) x refl h

  pub mask_0x000f : bit_and x 0x000f ≡ x % 16
  unfolding holds_below
  mask_0x000f = word_law (λ y. bit_and y 0x000f) (λ y. y % 16) x refl h
