-- ===== src/Base/Le32.antt =====
-- Little-endian 32-bit numbers in byte arrays: the `encode` and `decode` of src/nv_record.c and
-- src/security_counter.c.
use Prim.Native.Nat.{ℕ, ◌+◌, ◌*◌, ◌/◌, ◌^◌, ◌≤◌, ◌<◌, bit_or}
use mathlib.Core.Path.{◌≡◌}
use mathlib.Core.Logic.{◌⊎◌}
use mathlib.Core.List.{List, ◌++◌}
use native.Mathlib.Omega.{arith}
use cc2530_zigbee.Base.Arrays.{
  length, get_or, set, take, length-set, get_or-set_self, get_or-set_ne, get_or-take, get_or-append,
}
use cc2530_zigbee.Base.Words.{u8, IsByte}
use cc2530_zigbee.Base.Bits.{bit_or-shift}

-- `decode(p + i)`, of four cells of 8 bits
unfoldable pub decode32 : List ℕ → ℕ → ℕ
decode32 p i =
    bit_or
      (bit_or (bit_or (u8 (get_or p i 0)) (u8 (get_or p (i + 1) 0) * 2 ^ 8))
        (u8 (get_or p (i + 2) 0) * 2 ^ 16))
      (u8 (get_or p (i + 3) 0) * 2 ^ 24)

-- `encode(p + i, value)`, its four rounds written out
unfoldable pub encode32 : List ℕ → ℕ → ℕ → List ℕ
encode32 p i value =
    set (set (set (set p i (u8 value)) (i + 1) (u8 (value / 2 ^ 8))) (i + 2) (u8 (value / 2 ^ 16)))
      (i + 3) (u8 (value / 2 ^ 24))

-- Four bytes make up their sum.
pub or_bytes :
    (a b c d : ℕ)
    → IsByte a
    → IsByte b
    → IsByte c
    → bit_or (bit_or (bit_or a (b * 2 ^ 8)) (c * 2 ^ 16)) (d * 2 ^ 24)
      ≡ a + b * 2 ^ 8 + c * 2 ^ 16 + d * 2 ^ 24
or_bytes a b c d ha hb hc =
    let low : bit_or a (b * 2 ^ 8) ≡ a + b * 2 ^ 8 = bit_or-shift 8 a b ha in
    let middle : bit_or (a + b * 2 ^ 8) (c * 2 ^ 16) ≡ a + b * 2 ^ 8 + c * 2 ^ 16 =
      bit_or-shift 16 (a + b * 2 ^ 8) c (omega arith) in
    rw (low, middle) (bit_or-shift 24 (a + b * 2 ^ 8 + c * 2 ^ 16) d (omega arith))

pub length-encode32 : (p : List ℕ) (i v : ℕ) → length (encode32 p i v) ≡ length p
unfolding encode32
length-encode32 p i v =
    let p1 = set p i (u8 v) in
    let p2 = set p1 (i + 1) (u8 (v / 2 ^ 8)) in
    let p3 = set p2 (i + 2) (u8 (v / 2 ^ 16)) in
    omega (
      arith,
      length-set p i (u8 v),
      length-set p1 (i + 1) (u8 (v / 2 ^ 8)),
      length-set p2 (i + 2) (u8 (v / 2 ^ 16)),
      length-set p3 (i + 3) (u8 (v / 2 ^ 24)),
    )

-- Bytes outside the four written ones stay.
pub get_or-encode32_ne :
    (p : List ℕ) (i v k : ℕ) → (k < i) ⊎ (i + 4 ≤ k) → get_or (encode32 p i v) k 0 ≡ get_or p k 0
unfolding encode32
get_or-encode32_ne p i v k h =
    let p1 = set p i (u8 v) in
    let p2 = set p1 (i + 1) (u8 (v / 2 ^ 8)) in
    let p3 = set p2 (i + 2) (u8 (v / 2 ^ 16)) in
    rw (
      get_or-set_ne p3 (i + 3) k (u8 (v / 2 ^ 24)) 0 (omega arith),
      get_or-set_ne p2 (i + 2) k (u8 (v / 2 ^ 16)) 0 (omega arith),
      get_or-set_ne p1 (i + 1) k (u8 (v / 2 ^ 8)) 0 (omega arith),
      get_or-set_ne p i k (u8 v) 0 (omega arith),
    )

pub decode32-encode32_ne :
    (p : List ℕ) (i v k : ℕ)
    → (k + 4 ≤ i) ⊎ (i + 4 ≤ k)
    → decode32 (encode32 p i v) k ≡ decode32 p k
unfolding decode32
decode32-encode32_ne p i v k h = rw (
  get_or-encode32_ne p i v k (omega arith),
  get_or-encode32_ne p i v (k + 1) (omega arith),
  get_or-encode32_ne p i v (k + 2) (omega arith),
  get_or-encode32_ne p i v (k + 3) (omega arith),
)

-- The four bytes written.
get_or-encode32 :
    (p : List ℕ) (i v : ℕ)
    → i + 4 ≤ length p
    → let q = encode32 p i v in
      (get_or q i 0 ≡ u8 v)
      × (get_or q (i + 1) 0 ≡ u8 (v / 2 ^ 8))
      × (get_or q (i + 2) 0 ≡ u8 (v / 2 ^ 16))
      × (get_or q (i + 3) 0 ≡ u8 (v / 2 ^ 24))
unfolding encode32
get_or-encode32 p i v h =
    let p1 = set p i (u8 v) in
    let p2 = set p1 (i + 1) (u8 (v / 2 ^ 8)) in
    let p3 = set p2 (i + 2) (u8 (v / 2 ^ 16)) in
    let l1 = length-set p i (u8 v) in
    let l2 = length-set p1 (i + 1) (u8 (v / 2 ^ 8)) in
    let l3 = length-set p2 (i + 2) (u8 (v / 2 ^ 16)) in
    (
      rw
          (
            get_or-set_ne p3 (i + 3) i (u8 (v / 2 ^ 24)) 0 (omega arith),
            get_or-set_ne p2 (i + 2) i (u8 (v / 2 ^ 16)) 0 (omega arith),
            get_or-set_ne p1 (i + 1) i (u8 (v / 2 ^ 8)) 0 (omega arith),
          )
          (get_or-set_self p i (u8 v) 0 (omega arith)),
      rw
          (
            get_or-set_ne p3 (i + 3) (i + 1) (u8 (v / 2 ^ 24)) 0 (omega arith),
            get_or-set_ne p2 (i + 2) (i + 1) (u8 (v / 2 ^ 16)) 0 (omega arith),
          )
          (get_or-set_self p1 (i + 1) (u8 (v / 2 ^ 8)) 0 (omega arith)),
      rw (get_or-set_ne p3 (i + 3) (i + 2) (u8 (v / 2 ^ 24)) 0 (omega arith))
          (get_or-set_self p2 (i + 2) (u8 (v / 2 ^ 16)) 0 (omega arith)),
      get_or-set_self p3 (i + 3) (u8 (v / 2 ^ 24)) 0 (omega arith),
    )

-- Decoding what was encoded gives the number back.
pub decode32-encode32 :
    (p : List ℕ) (i v : ℕ) → i + 4 ≤ length p → v < 2 ^ 32 → decode32 (encode32 p i v) i ≡ v
unfolding decode32
decode32-encode32 p i v h lt =
    let (e0, e1, e2, e3) = get_or-encode32 p i v h in
    rw
      (
        e0,
        e1,
        e2,
        e3,
        or_bytes (u8 (u8 v)) (u8 (u8 (v / 2 ^ 8))) (u8 (u8 (v / 2 ^ 16))) (u8 (u8 (v / 2 ^ 24)))
            (omega arith) (omega arith) (omega arith),
      )
      (omega arith)

pub decode32-lt : (p : List ℕ) (i : ℕ) → decode32 p i < 2 ^ 32
unfolding decode32
decode32-lt p i =
    let a = u8 (get_or p i 0) in
    let b = u8 (get_or p (i + 1) 0) in
    let c = u8 (get_or p (i + 2) 0) in
    let d = u8 (get_or p (i + 3) 0) in
    rw (or_bytes a b c d (omega arith) (omega arith) (omega arith)) (omega arith)

-- Decoding looks at its four bytes only.
pub decode32-take : (n : ℕ) (p : List ℕ) (k : ℕ) → k + 4 ≤ n → decode32 (take n p) k ≡ decode32 p k
unfolding decode32
decode32-take n p k h = rw (
  get_or-take n p k 0 (omega arith),
  get_or-take n p (k + 1) 0 (omega arith),
  get_or-take n p (k + 2) 0 (omega arith),
  get_or-take n p (k + 3) 0 (omega arith),
)

pub decode32-append : (p q : List ℕ) (k : ℕ) → k + 4 ≤ length p → decode32 (p ++ q) k ≡ decode32 p k
unfolding decode32
decode32-append p q k h = rw (
  get_or-append p q k 0 (omega arith),
  get_or-append p q (k + 1) 0 (omega arith),
  get_or-append p q (k + 2) 0 (omega arith),
  get_or-append p q (k + 3) 0 (omega arith),
)

pub decode32-set_ne :
    (p : List ℕ) (i v k : ℕ) → (i < k) ⊎ (k + 4 ≤ i) → decode32 (set p i v) k ≡ decode32 p k
unfolding decode32
decode32-set_ne p i v k h = rw (
  get_or-set_ne p i k v 0 (omega arith),
  get_or-set_ne p i (k + 1) v 0 (omega arith),
  get_or-set_ne p i (k + 2) v 0 (omega arith),
  get_or-set_ne p i (k + 3) v 0 (omega arith),
)
