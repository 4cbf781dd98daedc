-- ===== src/RadioQueue/Frames.antt =====
-- The received frames and the frame to be sent, from the call that stores one to the one that
-- reads it.
use cc2530_zigbee.Base.{
  ℕ, zero, suc, ◌+◌, ◌≤◌, ◌<◌, ◌≡◌, refl, true, false, some, List, [], ◌∷◌, ◌++◌, length, get_or,
  set, take, u8, bit_xor, bit_and, arith, mask_0x03, Bool-cases, ◌==◌, inl, inr,
}
use cc2530_zigbee.RadioQueue.{
  ok, Queue, Frame, waiting, service, received, copied, blank, rx_read, read_slot, tx_submit,
  tx_read, caller, max_body, rx_ok, rx_valid,
}
use cc2530_zigbee.RadioQueue.Fifo.{InOrder, requests, cookies}

-- The frames received and not yet read, the oldest first.
abbrev pub frames_from : List Frame → ℕ → ℕ → List Frame
frames_from slots head zero = []
frames_from slots head (suc n) = get_or slots head blank ∷ frames_from slots (bit_xor head 1) n

abbrev pub frames : Queue → List Frame
frames q = frames_from q.rx q.rx_head q.rx_count

-- The state that a delivered frame leaves.
abbrev delivered : Frame → Queue → Queue
delivered f q = record q {
  last_cookie = get_or q.events (bit_and q.event_tail 3) 0;
  event_tail = u8 (q.event_tail + 1);
  rx = set q.rx q.rx_tail f;
  driver_result = rx_ok;
  driver_valid = true;
  rx_tail = bit_xor q.rx_tail 1;
  rx_count = u8 (q.rx_count + 1);
}

service_ok :
    (channel timeout limit : ℕ) (f : Frame) (q : Queue)
    → InOrder q
    → rx_valid q ≡ true
    → q.rx_count < 2
    → 0 < waiting q
    → (11 ≤ channel) × (channel ≤ 26) × (0 < timeout) × (timeout < 0x00800000) × (0 < limit)
    → service channel timeout limit false rx_ok f q ≡ (ok, delivered f q)
unfolding service received
service_ok channel timeout limit f q w v room h args = rw (w.fault, v) (ground (arith, w.bound))

frames_join :
    (a b f : Frame) (head tail count : ℕ)
    → head < 2
    → count < 2
    → tail ≡ bit_and (head + count) 1
    → frames_from (set (a ∷ b ∷ []) tail f) head (u8 (count + 1))
      ≡ frames_from (a ∷ b ∷ []) head count ++ (f ∷ [])
frames_join a b f zero tail zero h c e = rw e refl
frames_join a b f zero tail (suc zero) h c e = rw e refl
frames_join a b f (suc zero) tail zero h c e = rw e refl
frames_join a b f (suc zero) tail (suc zero) h c e = rw e refl
frames_join a b f (suc (suc head)) tail count h c e = absurd (omega arith)
frames_join a b f head tail (suc (suc count)) h c e = absurd (omega arith)

requests_pop :
    (f : Frame) (q : Queue)
    → InOrder q
    → 0 < waiting q
    → requests q ≡ (delivered f q).last_cookie ∷ requests (delivered f q)
unfolding cookies
requests_pop f q w h =
    let one : waiting q ≡ suc (waiting (delivered f q)) = omega (arith, w.indices) in
    rw (one, mask_0x03 q.event_tail w.indices.1) refl

-- A frame that the receiver delivers while a request waits and a slot is free joins the frames as
-- the newest, and the oldest request is used up.
pub service-frames :
    (channel timeout limit : ℕ) (a b f : Frame) (q : Queue)
    → InOrder q
    → q.rx ≡ a ∷ b ∷ []
    → rx_valid q ≡ true
    → q.rx_count < 2
    → 0 < waiting q
    → (11 ≤ channel) × (channel ≤ 26) × (0 < timeout) × (timeout < 0x00800000) × (0 < limit)
    → let (r, d) = service channel timeout limit false rx_ok f q in
      (r ≡ ok) × (frames d ≡ frames q ++ (f ∷ [])) × (requests q ≡ d.last_cookie ∷ requests d)
service-frames channel timeout limit a b f q w e v room h args =
    rw (service_ok channel timeout limit f q w v room h args) (
      refl,
      rw e (frames_join a b f q.rx_head q.rx_tail q.rx_count (ground arith) room (ground arith)),
      requests_pop f q w h,
    )

-- Reading takes the oldest frame, up to its length, if it has one of 1 to 125.
pub rx_read-frames :
    (reserved_end helper address : ℕ) (a b : Frame) (q : Queue) (f : Frame) (later : List Frame)
    → caller reserved_end helper address 128 ≡ true
    → q.rx ≡ a ∷ b ∷ []
    → rx_valid q ≡ true
    → frames q ≡ f ∷ later
    → (0 < f.length) × (f.length ≤ max_body)
    → let (r, o, d) = rx_read reserved_end helper (some address) q in
      (r ≡ ok) × (o ≡ some (copied f)) × (frames d ≡ later)
unfolding rx_read read_slot
rx_read-frames reserved_end helper address a b q f later own e v h bounds =
    elim (Bool-cases (q.rx_count == 0)) [
      | inl none_left ↦ absurd (ground arith)
      | inr left ↦ ground arith
    ]

take_all : (xs : List ℕ) → take (length xs) xs ≡ xs
take_all [] = refl
take_all (x ∷ xs) = ground (arith, take_all xs)

-- A frame submitted while none waits is read back byte for byte, after which none waits, and the
-- length and body of the transmit slot are all that has changed.
pub tx_read-tx_submit :
    (reserved_end helper source target : ℕ) (body : List ℕ) (q : Queue)
    → q.fault ≡ ok
    → q.tx_count ≡ 0
    → (0 < length body) × (length body ≤ max_body)
    → caller reserved_end helper source (length body) ≡ true
    → caller reserved_end helper target 126 ≡ true
    → let (r, d) = tx_submit reserved_end helper (some (source, body)) (length body) q in
      let (s, o, last) = tx_read reserved_end helper (some target) d in
      (r ≡ ok)
      × (s ≡ ok)
      × (o ≡ some body)
      × (last ≡ record q { tx_body = body; tx_length = length body })
unfolding tx_submit tx_read
tx_read-tx_submit reserved_end helper source target body q e none_waits bounds own own' =
    rw (e, none_waits, own) (ground (arith, take_all body))
