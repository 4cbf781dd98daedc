-- ===== src/MacFrame/RoundTrip.antt =====
-- What mac_frame_encode stores is read back by mac_frame_decode_profile.
use cc2530_zigbee.Base.{
  ℕ, ◌-◌, ◌*◌, ◌≤◌, ◌≡◌, ◌≢◌, refl, ap, subst, ◌∙◌, get_or, bit_and, true, false, ltb, Option, some,
  none, List, length, drop, u8, bytes, IsByte, arith,
}
use cc2530_zigbee.MacFrame.{
  Result, ok, Header, Sizes, sizes_of, is_compressed, header_shape, address_policy,
}
use cc2530_zigbee.MacFrame.Command.{
  Command, admit, command_admitted, command_header_policy, decode_command,
}
use cc2530_zigbee.MacFrame.Codec.{
  read_start, read_addresses, accept, command_status, beacon_status, decode_shaped, decode_bytes,
  decode_profile, emit_frame, encode,
}
use cc2530_zigbee.MacFrame.Shape.{Shaped, header_shape-Shaped, mask_0x40, mask_0x60}
use cc2530_zigbee.MacFrame.Parts.{before_addresses}
use cc2530_zigbee.MacFrame.Stored.{Stored, encode_shaped-Stored}
use cc2530_zigbee.MacFrame.Emitted.{
  Fits, read_start-emit_frame, read_addresses-emit_frame, parts_of_frame, low_bits, header_bounds,
}

-- What may be transmitted is admitted on reception.
received_command :
    (h : Header) (r : Result × Option Command) (m : ℕ) → m ≢ 1 → admit h r 1 ≡ ok → admit h r m ≡ ok
unfolding command_admitted
received_command h (ok, some c) m ne e = ground arith
received_command h (ok, none) m ne e = refl
received_command h (_, o) m ne e = absurd (cc)

received :
    (h : Header) (p : List ℕ) (m : ℕ)
    → m ≢ 1
    → command_status h p 1 ≡ ok
    → command_status h p m ≡ ok
unfolding command_status command_header_policy
received h p m ne e = ground (arith, received_command h (decode_command (bytes p) true) m ne)

shape_before :
    (h : Header) (z : Sizes)
    → header_shape h ≡ (ok, some z)
    → header_shape (before_addresses h) ≡ (ok, some z)
unfolding header_shape
shape_before h z e = e

compressed_pans :
    (h : Header) (z : Sizes)
    → IsByte h.flags
    → header_shape h ≡ (ok, some z)
    → address_policy h ≡ ok
    → is_compressed h.flags ≡ true
    → h.source_pan ≡ h.destination_pan
unfolding header_shape address_policy
compressed_pans h z b e a c = ground (arith, mask_0x40 h.flags b, mask_0x60 h.flags b)

-- `accept` on a frame whose statuses are ok.
accept_ok :
    (profile : ℕ) (body : List ℕ) (size : ℕ) (h : Header)
    → address_policy h ≡ ok
    → command_status h (drop size body) (u8 (profile * 2)) ≡ ok
    → beacon_status h (drop size body) ≡ ok
    → accept profile body size h ≡ (
      ok,
      some (record { header = h; payload_offset = size; payload_length = u8 (length body - size) }),
    )
unfolding accept
accept_ok profile body size h a c b = rw (a, c, b) refl

decode_bytes-accept :
    (profile : ℕ) (body : List ℕ) (h : Header) (z : Sizes)
    → length body ≤ 125
    → 3 ≤ length body
    → bit_and (get_or body 1 0) 0x03 ≡ 0
    → read_start body ≡ before_addresses h
    → header_shape h ≡ (ok, some z)
    → z.header ≤ length body
    → (h.type ≡ 2 → length body ≡ z.header)
    → read_addresses z (before_addresses h) body ≡ h
    → decode_bytes profile body ≡ accept profile body z.header h
unfolding decode_bytes decode_shaped
decode_bytes-accept profile body h z most least low start shape room ack addresses =
    rw (start, shape_before h z shape, addresses) (ground arith)

decode-emit_frame :
    (h : Header) (p : List ℕ) (b : List ℕ) (n profile : ℕ)
    → Fits h
    → profile ≤ 1
    → header_shape h ≡ (ok, some (sizes_of h))
    → Shaped h (sizes_of h)
    → Stored h p (sizes_of h) b n
    → decode_bytes profile (emit_frame h p (sizes_of h)) ≡ (
      ok,
      some (record { header = h; payload_offset = (sizes_of h).header; payload_length = length p }),
    )
decode-emit_frame h p b n profile f le e s st =
    let (back, count) = parts_of_frame h p f in
    let (least, most) = header_bounds h in
    let body = emit_frame h p (sizes_of h) in
    let size = (sizes_of h).header in
    let ack : h.type ≡ 2 → length body ≡ size = λ t. omega (arith, st.empty_ack t, count) in
    let mode = u8 (profile * 2) in
    let rest : u8 (length body - size) ≡ length p = omega (arith, st.room, count) in
    decode_bytes-accept profile body h (sizes_of h) (omega (arith, st.room, count))
      (omega (arith, count)) (low_bits h p (sizes_of h) s)
      (read_start-emit_frame h p (sizes_of h) s) e (omega (arith, count)) ack
      (read_addresses-emit_frame h p f (compressed_pans h (sizes_of h) f.flags e st.addressed))
    ∙ accept_ok profile body size h st.addressed
        (rw back (received h p mode (λ t. absurd (omega arith)) st.command)) (rw back st.beacon)
    ∙ ap (λ k. (ok, some (record { header = h; payload_offset = size; payload_length = k }))) rest

-- For a header whose fields fit their C types, and that is zero where its modes leave an address
-- or a PAN out, what `mac_frame_encode` stores is decoded under either profile to that header, to
-- the offset of the payload and to its length. The bytes from that offset on are the payload, and
-- the stored length is the number of bytes.
pub decode-encode_mac :
    (h : Header) (p : List ℕ) (capacity profile : ℕ) {b : List ℕ} {n : ℕ}
    → Fits h
    → profile ≤ 1
    → encode true h (bytes p) capacity ≡ (ok, some (b, n))
    → (decode_profile (bytes b) true profile ≡ (
      ok,
      some (record { header = h; payload_offset = (sizes_of h).header; payload_length = length p }),
    ))
      × (drop (sizes_of h).header b ≡ p)
      × (length b ≡ n)
unfolding encode decode_profile
decode-encode_mac h p capacity profile {b} {n} f le e =
    let (z, (shape, st)) = encode_shaped-Stored h p capacity (header_shape h) b n e in
    let s = header_shape-Shaped h z f.flags shape in
    let shape' : header_shape h ≡ (ok, some (sizes_of h)) = rw s.sizes at shape in
    let s' : Shaped h (sizes_of h) = subst (Shaped h) s.sizes s in
    let st' : Stored h p (sizes_of h) b n = subst (λ y. Stored h p y b n) s.sizes st in
    let (back, count) = parts_of_frame h p f in
    let decoded = decode-emit_frame h p b n profile f le shape' s' st' in
    let whole : b ≡ emit_frame h p (sizes_of h) = st'.body in
    let test : ltb 1 profile ≡ false = ground arith in
    (
      rw (whole, test) decoded,
      rw whole back,
      ap length whole ∙ omega (arith, count, st'.room, st'.count, header_bounds h),
    )
