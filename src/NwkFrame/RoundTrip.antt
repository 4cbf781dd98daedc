-- ===== src/NwkFrame/RoundTrip.antt =====
-- The two directions of the NWK codec.
use cc2530_zigbee.Base.{
  ℕ, zero, suc, ◌+◌, ◌-◌, ◌*◌, ◌/◌, ◌^◌, ◌≤◌, ◌<◌, ◌≡◌, ◌↔◌, bit_or, true, false, if◌then◌else◌,
  some, List, [], ◌++◌, length, take, drop, u8, or_le16, bytes, IsByte, or_le16-eq-add, mask_0x0003,
  mask_0x000f, mask_0xff00, arith,
}
use cc2530_zigbee.NwkFrame.Addresses.{no_address, addresses_back}
use cc2530_zigbee.NwkFrame.{
  ok, Header, FrameInfo, size_of, has_destination_ieee, has_source_ieee, header_shape, read_fixed,
  read_addresses, decode, emit_frame, encode,
}
use cc2530_zigbee.NwkFrame.Shape.{header_shape_iff, Known}

-- The fields fit their C types, and an address whose flag is clear is zero.
pub record Fits (h : Header) : Type 0 where
  pub flags : h.flags < 2 ^ 16
  pub destination : h.destination < 2 ^ 16
  pub source : h.source < 2 ^ 16
  pub octets : IsByte h.radius × IsByte h.sequence
  pub addresses : (length h.destination_ieee ≡ 8) × (length h.source_ieee ≡ 8)
  pub no_destination : has_destination_ieee h.flags ≡ false → h.destination_ieee ≡ no_address
  pub no_source : has_source_ieee h.flags ≡ false → h.source_ieee ≡ no_address

-- `nwk_frame_encode` succeeds exactly on what `header_shape` accepts, when frame and capacity
-- suffice, and then stores the emitted frame.
pub encode_iff :
    (h : Header) (p b : List ℕ) (capacity : ℕ)
    → (encode true h (bytes p) capacity ≡ (ok, some b)) ↔ (
        (header_shape h ≡ ok)
        × (size_of h.flags + length p ≤ 116)
        × (size_of h.flags + length p ≤ capacity)
        × (b ≡ emit_frame h p))
unfolding encode
encode_iff h p b capacity = ground arith

-- `nwk_frame_decode` succeeds exactly on at most 116 bytes with an accepted header and room for
-- the addresses that its flags announce.
pub decode_ok_iff :
    (b : List ℕ) (info : FrameInfo)
    → (decode (bytes b) true ≡ (ok, some info)) ↔ (
        (length b ≤ 116)
        × (size_of (read_fixed b).flags ≤ length b)
        × (header_shape (read_fixed b) ≡ ok)
        × (info ≡ record {
          header = read_addresses (read_fixed b) b;
          payload_offset = size_of (read_fixed b).flags;
          payload_length = length b - size_of (read_fixed b).flags;
        }))
unfolding decode
decode_ok_iff b info = ground arith

-- The control word that `emit_frame` writes for accepted fields.
control_sum :
    (d f : ℕ)
    → d ≤ 1
    → Known f
    → or_le16 (u8 (bit_or (bit_or 0 (2 * 2 ^ 2)) (d * 2 ^ 6))) (u8 (f / 2 ^ 8)) ≡ 8 + d * 64 + f
control_sum zero f le k = ground (arith, or_le16-eq-add 8 (u8 (f / 2 ^ 8)))
control_sum (suc zero) f le k = ground (arith, or_le16-eq-add 72 (u8 (f / 2 ^ 8)))
control_sum (suc (suc d)) f le k = absurd (omega arith)

read_fixed-emit_frame :
    (h : Header) (p : List ℕ)
    → Fits h
    → header_shape h ≡ ok
    → read_fixed (emit_frame h p)
      ≡ record h { destination_ieee = no_address; source_ieee = no_address }
unfolding read_fixed emit_frame
read_fixed-emit_frame h p f e =
    let control : ℕ = 8 + h.discover_route * 64 + h.flags in
    ground (
      arith,
      (header_shape_iff h f.flags).0 e,
      control_sum h.discover_route h.flags,
      mask_0x0003 control,
      mask_0x000f (control / 2 ^ 2),
      mask_0x0003 (control / 2 ^ 6),
      mask_0xff00 control,
      or_le16-eq-add (u8 h.destination) (u8 (h.destination / 2 ^ 8)),
      or_le16-eq-add (u8 h.source) (u8 (h.source / 2 ^ 8)),
    )

decode-emit_frame :
    (h : Header) (p : List ℕ)
    → Fits h
    → header_shape h ≡ ok
    → size_of h.flags + length p ≤ 116
    → (decode (bytes (emit_frame h p)) true ≡ (
      ok,
      some (record { header = h; payload_offset = size_of h.flags; payload_length = length p }),
    ))
      × (drop (size_of h.flags) (emit_frame h p) ≡ p)
decode-emit_frame h p f e le = (
  (decode_ok_iff (emit_frame h p) _).1 (
    unfold emit_frame in ground (arith, back),
    unfold emit_frame in rw fixed (ground (arith, back)),
    rw fixed (unfold header_shape in e),
    rw fixed (unfold emit_frame read_addresses in ground (arith, back)),
  ),
  unfold emit_frame in ground (arith, back),
)
  where
    fixed :
        read_fixed (emit_frame h p)
        ≡ record h { destination_ieee = no_address; source_ieee = no_address }
    fixed = read_fixed-emit_frame h p f e

    back :
        let d = has_destination_ieee h.flags in
        let s = has_source_ieee h.flags in
        let rest =
          (if d then h.destination_ieee else []) ++ ((if s then h.source_ieee else []) ++ p) in
        ((if d then take 8 rest else no_address) ≡ h.destination_ieee)
        × ((if s then take 8 (drop (if d then 8 else 0) rest) else no_address) ≡ h.source_ieee)
        × (drop ((if d then 8 else 0) + (if s then 8 else 0)) rest ≡ p)
        × (length rest ≡ (if d then 8 else 0) + (if s then 8 else 0) + length p)
    back =
        addresses_back (has_destination_ieee h.flags) (has_source_ieee h.flags) h.destination_ieee
          h.source_ieee p f.addresses.0 f.addresses.1 f.no_destination f.no_source

-- For a header whose fields fit their C types, and whose addresses are zero where their flag is
-- clear, what `nwk_frame_encode` stores decodes to that header, addresses included, and its bytes
-- from the payload offset on are the payload.
pub decode-encode_nwk :
    (h : Header) (p : List ℕ) (capacity : ℕ) {b : List ℕ}
    → Fits h
    → encode true h (bytes p) capacity ≡ (ok, some b)
    → (decode (bytes b) true ≡ (
      ok,
      some (record { header = h; payload_offset = size_of h.flags; payload_length = length p }),
    ))
      × (drop (size_of h.flags) b ≡ p)
decode-encode_nwk h p capacity {b} f e =
    let (valid, fits, room, is) = (encode_iff h p b capacity).0 e in
    rw is (decode-emit_frame h p f valid fits)
