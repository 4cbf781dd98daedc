-- ===== src/NwkFrame/Encoded.antt =====
-- A frame on the air, decoded and encoded again.
use cc2530_zigbee.Base.{
  ℕ, ◌+◌, ◌*◌, ◌/◌, ◌%◌, ◌^◌, ◌≤◌, ◌<◌, ◌≡◌, ◌≢◌, refl, sym, ap, bit_and, bit_or, Bool, true, false,
  if◌then◌else◌, some, List, ◌∷◌, length, get_or, drop, u8, or_le16, bytes, IsByte, IsBytes,
  or_le16-eq-add, or_le16_bytes, mask_0x0003, mask_0x000f, mask_0xff00, arith, length-drop,
  byte_law, holds_below,
}
use cc2530_zigbee.NwkFrame.Addresses.{addresses_again, drop-drop}
use cc2530_zigbee.NwkFrame.{
  ok, Header, FrameInfo, size_of, has_destination_ieee, has_source_ieee, header_shape, read_fixed,
  read_addresses, decode, emit_frame, encode, received_route, min_header,
}
use cc2530_zigbee.NwkFrame.RoundTrip.{encode_iff, decode_ok_iff}

-- The route discovery field of a frame on the air; 2 is the form that is received as 1.
abbrev pub sent_route : List ℕ → ℕ
sent_route b = get_or b 0 0 / 64

control_table :
    (x : ℕ) → IsByte x → u8 (bit_or (bit_or (x % 4) (x / 4 % 16 * 2 ^ 2)) (x / 64 * 2 ^ 6)) ≡ x
unfolding holds_below
control_table x h =
    byte_law (λ y. u8 (bit_or (bit_or (y % 4) (y / 4 % 16 * 2 ^ 2)) (y / 64 * 2 ^ 6))) (λ y. y) x
      refl h

-- The fields of a frame control, and the two bytes that they make up again.
control_fields :
    (b0 b1 : ℕ)
    → IsByte b0
    → IsByte b1
    → let c = or_le16 b0 b1 in
      (u8 (bit_and c 3) ≡ b0 % 4)
      × (u8 (bit_and (c / 2 ^ 2) 15) ≡ b0 / 4 % 16)
      × (u8 (bit_and (c / 2 ^ 6) 3) ≡ b0 / 64)
      × (u8 (bit_and c 0xff00 / 2 ^ 8) ≡ b1)
      × (bit_and c 0xff00 < 2 ^ 16)
control_fields b0 b1 h k = rw (or_le16-eq-add b0 b1 h k) (
  omega (arith, mask_0x0003 (b0 + b1 * 256)),
  omega (arith, mask_0x000f ((b0 + b1 * 256) / 4)),
  omega (arith, mask_0x0003 ((b0 + b1 * 256) / 64)),
  omega (arith, mask_0xff00 (b0 + b1 * 256)),
  omega (arith, mask_0xff00 (b0 + b1 * 256)),
)

-- A route field that is not 2 is received as it is.
received_route_lem : (r d : ℕ) → r ≢ 2 → received_route r d ≡ r
received_route_lem r d ne = ground arith

position_lem :
    (d : Bool) (body : List ℕ)
    → drop (if d then min_header + 8 else min_header) body ≡ drop (if d then 8 else 0) (drop 8 body)
position_lem true body = drop-drop 8 8 16 body refl
position_lem false body = refl

fixed_again :
    (b0 b1 b2 b3 : ℕ)
    → IsByte b0
    → IsByte b1
    → b0 / 64 ≢ 2
    → let c = or_le16 b0 b1 in
      u8 (
        bit_or
          (bit_or (u8 (bit_and c 3)) (u8 (bit_and (c / 2 ^ 2) 15) * 2 ^ 2))
          (received_route (u8 (bit_and (c / 2 ^ 6) 3)) (or_le16 b2 b3) * 2 ^ 6))
      ≡ b0
fixed_again b0 b1 b2 b3 h k ne =
    let (type, version, route, _, _) = control_fields b0 b1 h k in
    rw (type, version, route, received_route_lem (b0 / 64) (or_le16 b2 b3) ne) (control_table b0 h)

emit_frame-read :
    (b : List ℕ)
    → IsBytes b
    → 8 ≤ length b
    → sent_route b ≢ 2
    → emit_frame (read_addresses (read_fixed b) b) (drop (size_of (read_fixed b).flags) b) ≡ b
unfolding emit_frame read_addresses read_fixed
emit_frame-read (b0 ∷ b1 ∷ b2 ∷ b3 ∷ b4 ∷ b5 ∷ b6 ∷ b7 ∷ rest) h le ne =
    let flags = bit_and (or_le16 b0 b1) 0xff00 in
    let (_, _, _, high, _) = control_fields b0 b1 h.0 h.1.0 in
    let (d_low, d_high) = or_le16_bytes b2 b3 h.1.1.0 h.1.1.1.0 in
    let (s_low, s_high) = or_le16_bytes b4 b5 h.1.1.1.1.0 h.1.1.1.1.1.0 in
    let tail = addresses_again (has_destination_ieee flags) (has_source_ieee flags) rest in
    let body = b0 ∷ b1 ∷ b2 ∷ b3 ∷ b4 ∷ b5 ∷ b6 ∷ b7 ∷ rest in
    rw
      (
        drop-drop 8
            ((if has_destination_ieee flags then 8 else 0)
              + (if has_source_ieee flags then 8 else 0))
            (size_of flags) body (omega arith),
        position_lem (has_destination_ieee flags) body,
        fixed_again b0 b1 b2 b3 h.0 h.1.0 ne,
        high,
        d_low,
        d_high,
        s_low,
        s_high,
      )
      (ap (λ t. b0 ∷ b1 ∷ b2 ∷ b3 ∷ b4 ∷ b5 ∷ b6 ∷ b7 ∷ t) tail)
emit_frame-read b h le ne = absurd (omega arith)

read_addresses_flags : (h : Header) (b : List ℕ) → (read_addresses h b).flags ≡ h.flags
unfolding read_addresses
read_addresses_flags h b = refl

header_shape-read_addresses :
    (h : Header) (b : List ℕ) → header_shape (read_addresses h b) ≡ header_shape h
unfolding header_shape read_addresses
header_shape-read_addresses h b = refl

-- A frame of bytes that `nwk_frame_decode` accepts, and whose route discovery field is not the 2 that is
-- received as 1, is the one that `nwk_frame_encode` stores for the header and the payload decoded
-- from it, given room for it.
pub encode-decode_nwk :
    (b : List ℕ) (capacity : ℕ) {info : FrameInfo}
    → IsBytes b
    → sent_route b ≢ 2
    → decode (bytes b) true ≡ (ok, some info)
    → length b ≤ capacity
    → encode true info.header (bytes (drop info.payload_offset b)) capacity ≡ (ok, some b)
encode-decode_nwk b capacity {info} h ne e room =
    let (most, least, valid, is) = (decode_ok_iff b info).0 e in
    let size = size_of (read_fixed b).flags in
    let flags = read_addresses_flags (read_fixed b) b in
    rw is (
      (encode_iff (read_addresses (read_fixed b) b) (drop size b) b capacity).1 (
        rw (header_shape-read_addresses (read_fixed b) b) valid,
        rw flags (omega (arith, length-drop size b)),
        rw flags (omega (arith, length-drop size b)),
        sym (emit_frame-read b h (omega arith) ne),
      ))
