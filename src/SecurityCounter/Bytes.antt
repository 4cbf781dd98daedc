-- ===== src/SecurityCounter/Bytes.antt =====
-- Where the two floors of a record stand in the blob, and what leaves them alone.
use cc2530_zigbee.Base.{
  ℕ, zero, suc, ◌+◌, ◌-◌, ◌*◌, ◌^◌, ◌≤◌, ◌<◌, ◌≡◌, refl, ◌∙◌, ◌⊎◌, inl, List, length, set, take,
  drop, decode32, encode32, decode32-encode32, decode32-encode32_ne, decode32-take, decode32-append,
  decode32-set_ne, length-set, length-take, length-drop, length-append, arith,
}
use cc2530_zigbee.NvRecord.{max_record}
use cc2530_zigbee.SecurityCounter.Defs.{payload, padded, payload_max, loaded}

-- The offset of a domain's floor.
abbrev pub slot : ℕ → ℕ
slot domain = 8 + 4 * domain

-- The floor that a record or a blob holds for a domain.
abbrev pub floor : List ℕ → ℕ → ℕ
floor bytes domain = decode32 bytes (slot domain)

length-padded : (n : ℕ) (bytes : List ℕ) (l : ℕ) → length (padded n bytes l) ≡ n
unfolding padded
length-padded zero bytes l = refl
length-padded (suc n) bytes l = omega (arith, length-padded n (drop 1 bytes) (l - 1))

pub length-payload :
    (blob bytes : List ℕ) (l : ℕ)
    → length blob ≡ max_record
    → length (payload blob bytes l) ≡ max_record
unfolding payload
length-payload blob bytes l h = omega (
  arith,
  length-append (take 16 (set blob 5 l)) (padded payload_max bytes l),
  length-padded payload_max bytes l,
  length-take 16 (set blob 5 l),
  length-set blob 5 l,
)

-- `payload` writes the length byte and what lies behind the header.
pub floor-payload :
    (blob bytes : List ℕ) (l d : ℕ)
    → length blob ≡ max_record
    → d ≤ 1
    → floor (payload blob bytes l) d ≡ floor blob d
unfolding payload
floor-payload blob bytes l d h le =
    decode32-append (take 16 (set blob 5 l)) (padded payload_max bytes l) (slot d)
      (omega (arith, length-take 16 (set blob 5 l), length-set blob 5 l))
    ∙ decode32-take 16 (set blob 5 l) (slot d) (omega arith)
    ∙ decode32-set_ne blob 5 l (slot d) (inl (omega arith))

-- What is recorded of a blob has its floors.
pub floor-take : (n d : ℕ) (blob : List ℕ) → d ≤ 1 → floor (take (16 + n) blob) d ≡ floor blob d
floor-take n d blob le = decode32-take (16 + n) blob (slot d) (omega arith)

pub length-loaded :
    (bytes old : List ℕ)
    → length bytes ≤ max_record
    → length old ≡ max_record
    → length (loaded bytes old) ≡ max_record
length-loaded bytes old h e =
    omega (arith, length-append bytes (drop (length bytes) old), length-drop (length bytes) old)

pub floor-loaded :
    (bytes old : List ℕ) (d : ℕ)
    → 16 ≤ length bytes
    → d ≤ 1
    → floor (loaded bytes old) d ≡ floor bytes d
floor-loaded bytes old d h le =
    decode32-append bytes (drop (length bytes) old) (slot d) (omega arith)

-- A floor written for one domain is read for it, and leaves the other domain's alone.
pub floor-encode32 :
    (blob : List ℕ) (d v : ℕ)
    → length blob ≡ max_record
    → d ≤ 1
    → v < 2 ^ 32
    → floor (encode32 blob (slot d) v) d ≡ v
floor-encode32 blob d v h le lt = decode32-encode32 blob (slot d) v (omega arith) lt

pub floor-encode32_ne :
    (blob : List ℕ) (d e v : ℕ)
    → (d < e) ⊎ (e < d)
    → floor (encode32 blob (slot d) v) e ≡ floor blob e
floor-encode32_ne blob d e v h = decode32-encode32_ne blob (slot d) v (slot e) (omega arith)
