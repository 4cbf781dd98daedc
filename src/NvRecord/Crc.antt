-- ===== src/NvRecord/Crc.antt =====
-- The CRC-32 of src/nv_record.c: a byte at a time, by tables of nibbles in four byte planes.
use cc2530_zigbee.Base.{
  ℕ, zero, suc, ◌+◌, ◌*◌, ◌/◌, ◌%◌, ◌^◌, ◌<◌, ◌≡◌, refl, bit_or, bit_xor, ◌==◌, List, [], ◌∷◌, ◌++◌,
  get_or, u8, IsByte, or_bytes, holds_below, byte_law, if◌then◌else◌, arith,
}

-- The bytes `c0` to `c3` of a remainder, the least one first.
abbrev pub Planes : Type 0
Planes = ℕ × ℕ × ℕ × ℕ

-- `crc_low[plane][nibble]`
unfoldable pub crc_low : ℕ → ℕ → ℕ
crc_low zero n =
    get_or
      (0x00 ∷ 0x96 ∷ 0x2c ∷ 0xba ∷ 0x19 ∷ 0x8f ∷ 0x35 ∷ 0xa3 ∷ 0x32 ∷ 0xa4 ∷ 0x1e ∷ 0x88 ∷ 0x2b
        ∷ 0xbd ∷ 0x07 ∷ 0x91 ∷ [])
      n 0
crc_low (suc zero) n =
    get_or
      (0x00 ∷ 0x30 ∷ 0x61 ∷ 0x51 ∷ 0xc4 ∷ 0xf4 ∷ 0xa5 ∷ 0x95 ∷ 0x88 ∷ 0xb8 ∷ 0xe9 ∷ 0xd9 ∷ 0x4c
        ∷ 0x7c ∷ 0x2d ∷ 0x1d ∷ [])
      n 0
crc_low (suc (suc zero)) n =
    get_or
      (0x00 ∷ 0x07 ∷ 0x0e ∷ 0x09 ∷ 0x6d ∷ 0x6a ∷ 0x63 ∷ 0x64 ∷ 0xdb ∷ 0xdc ∷ 0xd5 ∷ 0xd2 ∷ 0xb6
        ∷ 0xb1 ∷ 0xb8 ∷ 0xbf ∷ [])
      n 0
crc_low (suc (suc (suc p))) n =
    get_or
      (0x00 ∷ 0x77 ∷ 0xee ∷ 0x99 ∷ 0x07 ∷ 0x70 ∷ 0xe9 ∷ 0x9e ∷ 0x0e ∷ 0x79 ∷ 0xe0 ∷ 0x97 ∷ 0x09
        ∷ 0x7e ∷ 0xe7 ∷ 0x90 ∷ [])
      n 0

-- `crc_high[plane][nibble]`
unfoldable pub crc_high : ℕ → ℕ → ℕ
crc_high zero n =
    get_or
      (0x00 ∷ 0x64 ∷ 0xc8 ∷ 0xac ∷ 0x90 ∷ 0xf4 ∷ 0x58 ∷ 0x3c ∷ 0x20 ∷ 0x44 ∷ 0xe8 ∷ 0x8c ∷ 0xb0
        ∷ 0xd4 ∷ 0x78 ∷ 0x1c ∷ [])
      n 0
crc_high (suc zero) n =
    get_or
      (0x00 ∷ 0x10 ∷ 0x20 ∷ 0x30 ∷ 0x41 ∷ 0x51 ∷ 0x61 ∷ 0x71 ∷ 0x83 ∷ 0x93 ∷ 0xa3 ∷ 0xb3 ∷ 0xc2
        ∷ 0xd2 ∷ 0xe2 ∷ 0xf2 ∷ [])
      n 0
crc_high (suc (suc zero)) n =
    get_or
      (0x00 ∷ 0xb7 ∷ 0x6e ∷ 0xd9 ∷ 0xdc ∷ 0x6b ∷ 0xb2 ∷ 0x05 ∷ 0xb8 ∷ 0x0f ∷ 0xd6 ∷ 0x61 ∷ 0x64
        ∷ 0xd3 ∷ 0x0a ∷ 0xbd ∷ [])
      n 0
crc_high (suc (suc (suc p))) n =
    get_or
      (0x00 ∷ 0x1d ∷ 0x3b ∷ 0x26 ∷ 0x76 ∷ 0x6b ∷ 0x4d ∷ 0x50 ∷ 0xed ∷ 0xf0 ∷ 0xd6 ∷ 0xcb ∷ 0x9b
        ∷ 0x86 ∷ 0xa0 ∷ 0xbd ∷ [])
      n 0

-- One round of the loop of `crc_update`.
unfoldable pub crc_step : Planes → ℕ → Planes
crc_step (c0, c1, c2, c3) byte =
    let index = u8 (bit_xor c0 byte) in
    let hi = index / 2 ^ 4 in
    let lo = index % 2 ^ 4 in
    (
      u8 (bit_xor (bit_xor c1 (crc_low 0 lo)) (crc_high 0 hi)),
      u8 (bit_xor (bit_xor c2 (crc_low 1 lo)) (crc_high 1 hi)),
      u8 (bit_xor (bit_xor c3 (crc_low 2 lo)) (crc_high 2 hi)),
      u8 (bit_xor (crc_low 3 lo) (crc_high 3 hi)),
    )

unfoldable pub crc_steps : Planes → List ℕ → Planes
crc_steps c [] = c
crc_steps c (x ∷ xs) = crc_steps (crc_step c x) xs

-- `(uint8_t)crc` and so on
unfoldable pub split : ℕ → Planes
split crc = (u8 crc, u8 (crc / 2 ^ 8), u8 (crc / 2 ^ 16), u8 (crc / 2 ^ 24))

unfoldable pub join : Planes → ℕ
join (c0, c1, c2, c3) = bit_or (bit_or (bit_or c0 (c1 * 2 ^ 8)) (c2 * 2 ^ 16)) (c3 * 2 ^ 24)

-- `crc_update(bytes, count)` on the variable `crc`, with the bytes as a list; for a null pointer
-- they are all 0xff.
unfoldable pub crc_update : ℕ → List ℕ → ℕ
crc_update crc bytes = join (crc_steps (split crc) bytes)

abbrev IsPlanes : Planes → Type 0
IsPlanes (c0, c1, c2, c3) = IsByte c0 × IsByte c1 × IsByte c2 × IsByte c3

split-IsPlanes : (crc : ℕ) → IsPlanes (split crc)
unfolding split
split-IsPlanes crc = (omega arith, omega arith, omega arith, omega arith)

crc_step-IsPlanes : (c : Planes) (x : ℕ) → IsPlanes (crc_step c x)
unfolding crc_step
crc_step-IsPlanes (c0, c1, c2, c3) x = (omega arith, omega arith, omega arith, omega arith)

crc_steps-IsPlanes : (c : Planes) (xs : List ℕ) → IsPlanes c → IsPlanes (crc_steps c xs)
unfolding crc_steps
crc_steps-IsPlanes c [] h = h
crc_steps-IsPlanes c (x ∷ xs) h = crc_steps-IsPlanes (crc_step c x) xs (crc_step-IsPlanes c x)

join_sum :
    (c0 c1 c2 c3 : ℕ)
    → IsPlanes (c0, c1, c2, c3)
    → join (c0, c1, c2, c3) ≡ c0 + c1 * 2 ^ 8 + c2 * 2 ^ 16 + c3 * 2 ^ 24
unfolding join
join_sum c0 c1 c2 c3 h = or_bytes c0 c1 c2 c3 h.0 h.1 h.2

split-join : (c : Planes) → IsPlanes c → split (join c) ≡ c
unfolding split
split-join (c0, c1, c2, c3) h =
    let total = c0 + c1 * 2 ^ 8 + c2 * 2 ^ 16 + c3 * 2 ^ 24 in
    let e0 : u8 total ≡ c0 = omega arith in
    let e1 : u8 (total / 2 ^ 8) ≡ c1 = omega arith in
    let e2 : u8 (total / 2 ^ 16) ≡ c2 = omega arith in
    let e3 : u8 (total / 2 ^ 24) ≡ c3 = omega arith in
    rw (join_sum c0 c1 c2 c3 h, e0, e1, e2, e3) refl

join-lt : (c : Planes) → IsPlanes c → join c < 2 ^ 32
join-lt (c0, c1, c2, c3) h = rw (join_sum c0 c1 c2 c3 h) (omega arith)

pub crc_update-lt : (crc : ℕ) (xs : List ℕ) → crc_update crc xs < 2 ^ 32
unfolding crc_update
crc_update-lt crc xs =
    join-lt (crc_steps (split crc) xs) (crc_steps-IsPlanes (split crc) xs (split-IsPlanes crc))

crc_steps-append :
    (c : Planes) (xs ys : List ℕ) → crc_steps c (xs ++ ys) ≡ crc_steps (crc_steps c xs) ys
unfolding crc_steps
crc_steps-append c [] ys = refl
crc_steps-append c (x ∷ xs) ys = crc_steps-append (crc_step c x) xs ys

-- Blocks one after the other give the remainder of the whole.
pub crc_update-append :
    (crc : ℕ) (xs ys : List ℕ) → crc_update crc (xs ++ ys) ≡ crc_update (crc_update crc xs) ys
unfolding crc_update
crc_update-append crc xs ys =
    rw
      (
        crc_steps-append (split crc) xs ys,
        split-join (crc_steps (split crc) xs)
            (crc_steps-IsPlanes (split crc) xs (split-IsPlanes crc)),
      )
      refl

-- `count` rounds of the reflected shift register of the polynomial 0xEDB88320.
abbrev pub shifted : ℕ → ℕ → ℕ
shifted zero r = r
shifted (suc n) r = shifted n (if r % 2 == 1 then bit_xor (r / 2) 0xedb88320 else r / 2)

-- For an index of a byte, in each byte plane the exclusive or of the two nibbles' entries is that byte of what eight
-- rounds of the reflected shift register of 0xEDB88320 make of the index.
pub crc_tables_lem :
    (i : ℕ)
    → i < 2 ^ 8
    → (bit_xor (crc_low 0 (i % 16)) (crc_high 0 (i / 16)) ≡ shifted 8 i % 2 ^ 8)
      × (bit_xor (crc_low 1 (i % 16)) (crc_high 1 (i / 16)) ≡ shifted 8 i / 2 ^ 8 % 2 ^ 8)
      × (bit_xor (crc_low 2 (i % 16)) (crc_high 2 (i / 16)) ≡ shifted 8 i / 2 ^ 16 % 2 ^ 8)
      × (bit_xor (crc_low 3 (i % 16)) (crc_high 3 (i / 16)) ≡ shifted 8 i / 2 ^ 24)
unfolding crc_low crc_high holds_below
crc_tables_lem i h = (
  byte_law (λ y. bit_xor (crc_low 0 (y % 16)) (crc_high 0 (y / 16))) (λ y. shifted 8 y % 2 ^ 8) i
      refl h,
  byte_law (λ y. bit_xor (crc_low 1 (y % 16)) (crc_high 1 (y / 16)))
      (λ y. shifted 8 y / 2 ^ 8 % 2 ^ 8) i refl h,
  byte_law (λ y. bit_xor (crc_low 2 (y % 16)) (crc_high 2 (y / 16)))
      (λ y. shifted 8 y / 2 ^ 16 % 2 ^ 8) i refl h,
  byte_law (λ y. bit_xor (crc_low 3 (y % 16)) (crc_high 3 (y / 16))) (λ y. shifted 8 y / 2 ^ 24) i
      refl h,
)
