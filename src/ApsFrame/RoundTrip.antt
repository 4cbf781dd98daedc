-- ===== src/ApsFrame/RoundTrip.antt =====
-- The two directions of the APS codec.
use cc2530_zigbee.Base.{
  ℕ, ◌+◌, ◌-◌, ◌*◌, ◌/◌, ◌^◌, ◌≤◌, ◌<◌, ◌≡◌, ◌≢◌, ◌↔◌, refl, ◌⊎◌, bit_and, bit_or, true, some, List,
  ◌∷◌, length, drop, u8, bytes, IsByte, IsBytes, or_le16-eq-add, mask_0x20, mask_0x90, mask_0xbf,
  arith, length-drop, byte_law, holds_below, sym,
}
use cc2530_zigbee.ApsFrame.{
  ok, Header, FrameInfo, validate_header, read_header, decode, emit_frame, encode,
}

-- The fields fit their C types.
pub record Fits (h : Header) : Type 0 where
  pub flags : IsByte h.flags
  pub destination_endpoint : IsByte h.destination_endpoint
  pub cluster_id : h.cluster_id < 2 ^ 16
  pub profile_id : h.profile_id < 2 ^ 16
  pub source_endpoint : IsByte h.source_endpoint
  pub counter : IsByte h.counter

-- The headers that the codec accepts: unicast data frames with no flag but the ACK request, from
-- an endpoint below 255.
validate_header_iff :
    (h : Header)
    → IsByte h.flags
    → (validate_header h ≡ ok) ↔ (
        (h.type ≡ 0)
        × (h.delivery_mode ≡ 0)
        × ((h.flags ≡ 0) ⊎ (h.flags ≡ 0x40))
        × (h.source_endpoint ≢ 0xff))
unfolding validate_header
validate_header_iff h b =
    ground (arith, mask_0x20 h.flags b, mask_0x90 h.flags b, mask_0xbf h.flags b)

read_header-emit_frame :
    (h : Header) (p : List ℕ) → Fits h → validate_header h ≡ ok → read_header (emit_frame h p) ≡ h
unfolding read_header emit_frame
read_header-emit_frame h p f e = ground (
  arith,
  (validate_header_iff h f.flags).0 e,
  or_le16-eq-add (u8 h.cluster_id) (u8 (h.cluster_id / 2 ^ 8)),
  or_le16-eq-add (u8 h.profile_id) (u8 (h.profile_id / 2 ^ 8)),
)

-- `aps_frame_encode` succeeds exactly on what `validate_header` accepts, when frame and capacity
-- suffice, and then stores the emitted frame.
encode_iff :
    (h : Header) (p b : List ℕ) (capacity : ℕ)
    → (encode true h (bytes p) capacity ≡ (ok, some b)) ↔ (
        (validate_header h ≡ ok)
        × (length p ≤ 100)
        × (length p + 8 ≤ capacity)
        × (b ≡ emit_frame h p))
unfolding encode
encode_iff h p b capacity = ground arith

validate_header_type : (h : Header) → validate_header h ≡ ok → h.type ≡ 0
unfolding validate_header
validate_header_type h e = ground arith

-- `aps_frame_decode` succeeds exactly on 8 to 108 bytes whose header fields are accepted.
decode_ok_iff :
    (b : List ℕ) (info : FrameInfo)
    → (decode (bytes b) true ≡ (ok, some info)) ↔ (
        (8 ≤ length b)
        × (length b ≤ 108)
        × (validate_header (read_header b) ≡ ok)
        × (info
            ≡ record { header = read_header b; payload_offset = 8; payload_length = length b - 8 }))
unfolding decode read_header
decode_ok_iff b info = ground (arith, validate_header_type (read_header b))

decode-emit_frame :
    (h : Header) (p : List ℕ)
    → Fits h
    → validate_header h ≡ ok
    → length p ≤ 100
    → decode (bytes (emit_frame h p)) true
      ≡ (ok, some (record { header = h; payload_offset = 8; payload_length = length p }))
unfolding emit_frame
decode-emit_frame h p f e le = (decode_ok_iff (emit_frame h p) _).1 (
  omega arith,
  omega arith,
  rw (read_header-emit_frame h p f e) e,
  rw (read_header-emit_frame h p f e) (ground arith),
)

-- For a header whose fields fit their C types, what `aps_frame_encode` stores decodes to that
-- header, and its bytes from the payload offset on are the payload.
pub decode-encode_aps :
    (h : Header) (p : List ℕ) (capacity : ℕ) {b : List ℕ}
    → Fits h
    → encode true h (bytes p) capacity ≡ (ok, some b)
    → (decode (bytes b) true
        ≡ (ok, some (record { header = h; payload_offset = 8; payload_length = length p })))
      × (drop 8 b ≡ p)
unfolding emit_frame
decode-encode_aps h p capacity {b} f e =
    let (valid, fits, room, is) = (encode_iff h p b capacity).0 e in
    rw is (decode-emit_frame h p f valid fits, refl)

-- The frame control byte is the union of the fields read from it.
control_fields :
    (x : ℕ)
    → IsByte x
    → u8 (bit_or (bit_or (bit_and x 3) (bit_and (x / 2 ^ 2) 3 * 2 ^ 2)) (bit_and x 0xf0)) ≡ x
unfolding holds_below
control_fields x h =
    byte_law
      (λ y. u8 (bit_or (bit_or (bit_and y 3) (bit_and (y / 2 ^ 2) 3 * 2 ^ 2)) (bit_and y 0xf0)))
      (λ y. y) x refl h

emit_frame-read_header :
    (b : List ℕ) → IsBytes b → 8 ≤ length b → emit_frame (read_header b) (drop 8 b) ≡ b
unfolding emit_frame read_header
emit_frame-read_header (b0 ∷ b1 ∷ b2 ∷ b3 ∷ b4 ∷ b5 ∷ b6 ∷ b7 ∷ p) h le =
    ground (arith, control_fields b0 h.0, or_le16-eq-add b2 b3, or_le16-eq-add b4 b5)
emit_frame-read_header b h le = absurd (omega arith)

-- A frame that `aps_frame_decode` accepts is the one that `aps_frame_encode` stores for the header
-- and the payload decoded from it, given room for it.
pub encode-decode_aps :
    (b : List ℕ) (capacity : ℕ) {info : FrameInfo}
    → IsBytes b
    → decode (bytes b) true ≡ (ok, some info)
    → length b ≤ capacity
    → encode true info.header (bytes (drop info.payload_offset b)) capacity ≡ (ok, some b)
encode-decode_aps b capacity {info} h e room =
    let (least, most, valid, is) = (decode_ok_iff b info).0 e in
    rw is (
      (encode_iff (read_header b) (drop 8 b) b capacity).1 (
        valid,
        omega (arith, length-drop 8 b),
        omega (arith, length-drop 8 b),
        sym (emit_frame-read_header b h least),
      ))
