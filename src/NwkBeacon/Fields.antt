-- ===== src/NwkBeacon/Fields.antt =====
-- What the beacon decoder accepts, and the fields that it reads.
use cc2530_zigbee.Base.{
  ℕ, zero, suc, ◌+◌, ◌*◌, ◌/◌, ◌%◌, ◌^◌, bit_and, bit_or, Bool, true, ltb, ◌==◌, ◌!=◌,
  if◌then◌else◌, some, List, [], ◌∷◌, length, get_or, take, drop, replicate, bytes, ◌≡◌, ◌≢◌, ◌↔◌,
  refl, ◌&&◌, arith, IsByte, IsBytes, holds_below, holds_below_elim, bit_or-shift, mask_0x03,
  mask_0x04, mask_0x0f, length-take, length-drop,
}
use cc2530_zigbee.NwkBeacon.{ok, Beacon, any_of, all_of, pan_id, read_beacon, decode}

-- The fields of a payload as arithmetic on its bytes.
abbrev pub fields : List ℕ → Beacon
fields b = record {
  stack_profile = get_or b 1 0 % 16;
  router_capacity = get_or b 2 0 / 4 % 2;
  device_depth = get_or b 2 0 / 8 % 16;
  end_device_capacity = get_or b 2 0 / 128;
  extended_pan_id = pan_id b;
  tx_offset = get_or b 11 0 + get_or b 12 0 * 256 + get_or b 13 0 * 65536;
  update_id = get_or b 14 0;
}

-- A test that holds for every two bytes.
pairs_law :
    (test : ℕ → ℕ → Bool) (x y : ℕ)
    → holds_below 256 (λ x. holds_below 256 (test x)) ≡ true
    → IsByte x
    → IsByte y
    → test x y ≡ true
pairs_law test x y h p q =
    holds_below_elim 256 (test x) y (holds_below_elim 256 (λ x. holds_below 256 (test x)) x h p) q

abbrev or_test : ℕ → ℕ → Bool
or_test x y = ltb (bit_or x y) 256 && (if bit_or x y == 0 then x + y == 0 else x + y != 0)

abbrev and_test : ℕ → ℕ → Bool
and_test x y = ltb (bit_and x y) 256 && (if bit_and x y == 255 then x + y == 510 else x + y != 510)

or_bytes :
    (x y : ℕ) → IsByte x → IsByte y → IsByte (bit_or x y) × ((bit_or x y ≡ 0) ↔ ((x ≡ 0) × (y ≡ 0)))
unfolding holds_below
or_bytes x y p q = ground (arith, pairs_law or_test x y refl p q)

and_bytes :
    (x y : ℕ)
    → IsByte x
    → IsByte y
    → IsByte (bit_and x y) × ((bit_and x y ≡ 255) ↔ ((x ≡ 255) × (y ≡ 255)))
unfolding holds_below
and_bytes x y p q = ground (arith, pairs_law and_test x y refl p q)

-- The loops find out whether all bytes are 0, or all 0xff.
any_of_iff :
    (any : ℕ) (xs : List ℕ)
    → IsByte any
    → IsBytes xs
    → (any_of any xs ≡ 0) ↔ ((any ≡ 0) × (xs ≡ replicate (length xs) 0))
unfolding any_of
any_of_iff any [] p q = ground arith
any_of_iff any (x ∷ xs) p q =
    let both = or_bytes any x p q.0 in ground (arith, both, any_of_iff (bit_or any x) xs both.0 q.1)

all_of_iff :
    (all : ℕ) (xs : List ℕ)
    → IsByte all
    → IsBytes xs
    → (all_of all xs ≡ 255) ↔ ((all ≡ 255) × (xs ≡ replicate (length xs) 255))
unfolding all_of
all_of_iff all [] p q = ground arith
all_of_iff all (x ∷ xs) p q =
    let both = and_bytes all x p q.0 in
    ground (arith, both, all_of_iff (bit_and all x) xs both.0 q.1)

IsBytes-take : (n : ℕ) (xs : List ℕ) → IsBytes xs → IsBytes (take n xs)
IsBytes-take zero xs h = tt
IsBytes-take (suc n) [] h = tt
IsBytes-take (suc n) (x ∷ xs) h = (h.0, IsBytes-take n xs h.1)

IsBytes-drop : (n : ℕ) (xs : List ℕ) → IsBytes xs → IsBytes (drop n xs)
IsBytes-drop zero xs h = h
IsBytes-drop (suc n) [] h = tt
IsBytes-drop (suc n) (x ∷ xs) h = IsBytes-drop n xs h.1

IsByte-get_or : (xs : List ℕ) (i : ℕ) → IsBytes xs → IsByte (get_or xs i 0)
IsByte-get_or [] i h = omega arith
IsByte-get_or (x ∷ xs) zero h = h.0
IsByte-get_or (x ∷ xs) (suc i) h = IsByte-get_or xs i h.1

read_beacon-fields : (b : List ℕ) → IsBytes b → read_beacon b ≡ fields b
unfolding read_beacon
read_beacon-fields b h =
    let b1 = IsByte-get_or b 1 h in
    let b2 = IsByte-get_or b 2 h in
    let b11 = IsByte-get_or b 11 h in
    let b12 = IsByte-get_or b 12 h in
    ground (
      arith,
      mask_0x0f (get_or b 1 0) b1,
      mask_0x04 (get_or b 2 0) b2,
      mask_0x0f (get_or b 2 0 / 2 ^ 3) (omega arith),
      bit_or-shift 8 (get_or b 11 0) (get_or b 12 0) b11,
      bit_or-shift 16 (get_or b 11 0 + get_or b 12 0 * 2 ^ 8) (get_or b 13 0) (omega arith),
    )

-- On a payload of bytes `nwk_beacon_decode` succeeds exactly when it has 15 bytes, protocol id 0,
-- protocol version 2, clear reserved bits, and an extended PAN id that is not all 0 and not all
-- 0xff; the result is then the fields of the payload.
pub decode_iff :
    (b : List ℕ) (r : Beacon)
    → IsBytes b
    → (decode (bytes b) true ≡ (ok, some r)) ↔ (
        (length b ≡ 15)
        × (get_or b 0 0 ≡ 0)
        × (get_or b 1 0 / 16 ≡ 2)
        × (get_or b 2 0 % 4 ≡ 0)
        × (pan_id b ≢ replicate 8 0)
        × (pan_id b ≢ replicate 8 255)
        × (r ≡ fields b))
unfolding decode
decode_iff b r h =
    let pan = IsBytes-take 8 (drop 3 b) (IsBytes-drop 3 b h) in
    ground (
      arith,
      read_beacon-fields b h,
      any_of_iff 0 (pan_id b) (omega arith) pan,
      all_of_iff 255 (pan_id b) (omega arith) pan,
      mask_0x03 (get_or b 2 0) (IsByte-get_or b 2 h),
      length-take 8 (drop 3 b),
      length-drop 3 b,
    )
