-- ===== src/MacFrame/Parts.antt =====
-- The addresses of a MAC frame: what `emit_frame` stores of them and `mac_frame_decode` reads.
use cc2530_zigbee.Base.{
  ℕ, zero, suc, ◌+◌, ◌/◌, ◌^◌, ◌≤◌, ◌<◌, ◌≡◌, refl, sym, ap₂, not, ◌&&◌, true, ◌!=◌, Bool-cases,
  if◌then◌else◌, List, ◌∷◌, ◌++◌, length, take, drop, replicate, u8, or_le16, or_le16-eq-add,
  length-take, take-append, drop-append, arith, inl, inr,
}
use cc2530_zigbee.MacFrame.{Header, is_compressed}
use cc2530_zigbee.MacFrame.Codec.{
  copied, read_destination, read_source, emit_destination, emit_source, source_position,
}

-- An address of eight bytes of which only the first `size` are not zero.
abbrev pub IsAddress : ℕ → List ℕ → Type 0
IsAddress size l = (length l ≡ 8) × (copied size l ≡ l)

length_taken : (n : ℕ) (l : List ℕ) → n ≤ 8 → length l ≡ 8 → length (take n l) ≡ n
length_taken n l p q = omega (arith, length-take n l)

copied_back : (n : ℕ) (l rest : List ℕ) → n ≤ 8 → IsAddress n l → copied n (take n l ++ rest) ≡ l
copied_back n l rest p (q, r) = rw (take-append (take n l) rest n (length_taken n l p q)) r

word_back : (w : ℕ) → w < 2 ^ 16 → or_le16 (u8 w) (u8 (w / 2 ^ 8)) ≡ w
word_back w h = omega (arith, or_le16-eq-add (u8 w) (u8 (w / 2 ^ 8)))

is_some_size : (n : ℕ) → (suc n != 0) ≡ true
is_some_size n = ground arith

-- The header of a frame, before its addresses are read, and with its destination.
abbrev pub before_addresses : Header → Header
before_addresses h = record h {
  destination_pan = 0;
  source_pan = 0;
  destination = replicate 8 0;
  source = replicate 8 0;
}

abbrev pub before_source : Header → Header
before_source h = record h { source_pan = 0; source = replicate 8 0 }

abbrev with_destination : Header → ℕ → List ℕ → Header
with_destination h pan address = record (before_source h) {
  destination_pan = pan;
  destination = address;
}

abbrev with_source : Header → ℕ → List ℕ → Header
with_source h pan address = record h { source_pan = pan; source = address }

pub read_destination-emit :
    (n : ℕ) (h : Header) (rest : List ℕ)
    → n ≤ 8
    → IsAddress n h.destination
    → h.destination_pan < 2 ^ 16
    → (n ≡ 0 → h.destination_pan ≡ 0)
    → read_destination n (before_addresses h) (emit_destination n h ++ rest) ≡ before_source h
unfolding read_destination emit_destination
read_destination-emit zero h rest p a w z = ap₂ (with_destination h) (sym (z refl)) a.1
read_destination-emit (suc n) h rest p a w z = rw (is_some_size n) (
    ap₂ (with_destination h) (word_back h.destination_pan w)
      (copied_back (suc n) h.destination rest p a))

-- What stands behind it.
pub drop-emit_destination :
    (n : ℕ) (h : Header) (a b c : ℕ) (rest : List ℕ)
    → n ≤ 8
    → length h.destination ≡ 8
    → drop (source_position n) (a ∷ b ∷ c ∷ (emit_destination n h ++ rest)) ≡ rest
unfolding emit_destination
drop-emit_destination zero h a b c rest p q = refl
drop-emit_destination (suc n) h a b c rest p q =
    rw (is_some_size n, add_five)
      (drop-append (take (suc n) h.destination) rest (suc n)
        (length_taken (suc n) h.destination p q))
  where
    add_five : 3 + 2 + suc n ≡ suc (suc (suc (suc (suc (suc n)))))
    add_five = omega arith

pub read_source-emit :
    (n : ℕ) (h : Header) (rest : List ℕ)
    → n ≤ 8
    → IsAddress n h.source
    → h.source_pan < 2 ^ 16
    → (n ≡ 0 → h.source_pan ≡ 0)
    → (is_compressed h.flags ≡ true → h.source_pan ≡ h.destination_pan)
    → read_source n (before_source h) (emit_source n h ++ rest) ≡ h
unfolding read_source emit_source
read_source-emit zero h rest p a w z c = ap₂ (with_source h) (sym (z refl)) a.1
read_source-emit (suc n) h rest p a w z c = elim (Bool-cases (is_compressed h.flags)) [
  | inl e ↦
      rw (is_some_size n, e)
        (ap₂ (with_source h) (sym (c e)) (copied_back (suc n) h.source rest p a))
  | inr e ↦
      rw (is_some_size n, e)
        (ap₂ (with_source h) (word_back h.source_pan w) (copied_back (suc n) h.source rest p a))
]

pub length-emit_destination :
    (n : ℕ) (h : Header)
    → n ≤ 8
    → length h.destination ≡ 8
    → length (emit_destination n h) ≡ n + (if n != 0 then 2 else 0)
unfolding emit_destination
length-emit_destination zero h p q = refl
length-emit_destination (suc n) h p q =
    rw (is_some_size n) (omega (arith, length_taken (suc n) h.destination p q))

pub length-emit_source :
    (n : ℕ) (h : Header)
    → n ≤ 8
    → length h.source ≡ 8
    → length (emit_source n h) ≡ n + (if n != 0 && not (is_compressed h.flags) then 2 else 0)
unfolding emit_source
length-emit_source zero h p q = refl
length-emit_source (suc n) h p q = elim (Bool-cases (is_compressed h.flags)) [
  | inl e ↦ rw (is_some_size n, e) (omega (arith, length_taken (suc n) h.source p q))
  | inr e ↦ rw (is_some_size n, e) (omega (arith, length_taken (suc n) h.source p q))
]
