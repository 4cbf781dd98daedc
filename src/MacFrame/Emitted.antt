-- ===== src/MacFrame/Emitted.antt =====
-- The frames that `emit_frame` of src/mac_frame.c stores, as mac_frame_decode reads them.
use cc2530_zigbee.Base.{
  ℕ, ◌+◌, ◌*◌, ◌/◌, ◌^◌, ◌≤◌, ◌<◌, ◌≡◌, get_or, bit_and, bit_or, true, List, ◌∷◌, ◌++◌, length,
  drop, u8, IsByte, mask_0x03, append_assoc, drop-append, length-append, arith,
}
use cc2530_zigbee.MacFrame.{Header, Sizes, mode_size, sizes_of, is_compressed}
use cc2530_zigbee.MacFrame.Codec.{
  read_start, read_addresses, emit_frame, emit_destination, emit_source,
}
use cc2530_zigbee.MacFrame.Shape.{Shaped, first_byte, second_byte, mask_0x07, mask_0xf8}
use cc2530_zigbee.MacFrame.Parts.{
  IsAddress, before_addresses, read_destination-emit, drop-emit_destination, read_source-emit,
  length-emit_destination, length-emit_source,
}

-- The fields fit their C types, and what the modes leave out is zero.
pub record Fits (h : Header) : Type 0 where
  pub flags : IsByte h.flags
  pub pans : (h.destination_pan < 2 ^ 16) × (h.source_pan < 2 ^ 16)
  pub destination : IsAddress (mode_size h.destination_mode) h.destination
  pub source : IsAddress (mode_size h.source_mode) h.source
  pub no_destination : mode_size h.destination_mode ≡ 0 → h.destination_pan ≡ 0
  pub no_source : mode_size h.source_mode ≡ 0 → h.source_pan ≡ 0

-- The header of a frame before its addresses are read.
pub read_start-emit_frame :
    (h : Header) (p : List ℕ) (z : Sizes)
    → Shaped h z
    → read_start (emit_frame h p z) ≡ before_addresses h
unfolding read_start emit_frame
read_start-emit_frame h p z s =
    let first : ℕ = h.type + h.flags in
    let second : ℕ = h.destination_mode * 4 + h.version * 16 + h.source_mode * 64 in
    rw
      (
        first_byte h.type h.flags s.type s.flags.0 s.flags.1,
        second_byte h.destination_mode h.version h.source_mode s.destination_mode s.version
            s.source_mode,
      )
      (ground (
        arith,
        s.flags,
        mask_0x07 first,
        mask_0xf8 first,
        mask_0x03 (second / 2 ^ 4),
        mask_0x03 (second / 2 ^ 2),
        mask_0x03 (second / 2 ^ 6),
      ))

mode_bound : (m : ℕ) → mode_size m ≤ 8
mode_bound m = ground arith

-- The addresses that are read are those of the header.
pub read_addresses-emit_frame :
    (h : Header) (p : List ℕ)
    → Fits h
    → (is_compressed h.flags ≡ true → h.source_pan ≡ h.destination_pan)
    → read_addresses (sizes_of h) (before_addresses h) (emit_frame h p (sizes_of h)) ≡ h
unfolding read_addresses emit_frame sizes_of
read_addresses-emit_frame h p f c =
    let d = mode_size h.destination_mode in
    let s = mode_size h.source_mode in
    let rest = emit_source s h ++ p in
    rw
      (
        read_destination-emit d h rest (mode_bound h.destination_mode) f.destination f.pans.0
            f.no_destination,
        drop-emit_destination d h _ _ h.sequence rest (mode_bound h.destination_mode)
            f.destination.0,
      )
      (read_source-emit s h p (mode_bound h.source_mode) f.source f.pans.1 f.no_source c)

-- The header of a frame and its payload.
pub parts_of_frame :
    (h : Header) (p : List ℕ)
    → Fits h
    → (drop (sizes_of h).header (emit_frame h p (sizes_of h)) ≡ p)
      × (length (emit_frame h p (sizes_of h)) ≡ (sizes_of h).header + length p)
unfolding emit_frame sizes_of
parts_of_frame h p f =
    let d = mode_size h.destination_mode in
    let s = mode_size h.source_mode in
    let front = emit_destination d h ++ emit_source s h in
    let first : ℕ = u8 (bit_or h.type h.flags) in
    let second : ℕ =
      u8 (
        bit_or (bit_or (h.destination_mode * 2 ^ 2) (h.version * 2 ^ 4)) (h.source_mode * 2 ^ 6)) in
    let to = length-emit_destination d h (mode_bound h.destination_mode) f.destination.0 in
    let from = length-emit_source s h (mode_bound h.source_mode) f.source.0 in
    let both = length-append (emit_destination d h) (emit_source s h) in
    rw (← append_assoc (emit_destination d h) (emit_source s h) p) (
      drop-append (first ∷ second ∷ h.sequence ∷ front) p _ (omega (arith, to, from, both)),
      omega (arith, to, from, both, length-append front p),
    )

pub low_bits :
    (h : Header) (p : List ℕ) (z : Sizes)
    → Shaped h z
    → bit_and (get_or (emit_frame h p z) 1 0) 0x03 ≡ 0
unfolding emit_frame
low_bits h p z s =
    let second : ℕ = h.destination_mode * 4 + h.version * 16 + h.source_mode * 64 in
    rw
      (second_byte h.destination_mode h.version h.source_mode s.destination_mode s.version
        s.source_mode)
      (ground (arith, s.destination_mode, s.version, s.source_mode, mask_0x03 second))

pub header_bounds : (h : Header) → (3 ≤ (sizes_of h).header) × ((sizes_of h).header ≤ 23)
unfolding sizes_of
header_bounds h = ground arith
