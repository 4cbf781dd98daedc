-- ===== src/ZclDispatch/Reply.antt =====
-- The replies of the ZCL server: frames that zcl_frame_encode stores for a request's header.
use cc2530_zigbee.Base.{
  ℕ, ◌+◌, ◌/◌, ◌%◌, ◌≡◌, inl, inr, refl, ap, ◌∙◌, bit_or, bit_xor, true, Option, none, some, List,
  length, u8, bytes, IsByte, holds_below, byte_law, arith,
}
use cc2530_zigbee.ZclFrame
use cc2530_zigbee.ZclFrame.{Result, ok, truncated, Header, FrameInfo, size_of, read_header}
use cc2530_zigbee.ZclFrame.RoundTrip.{Fits, decode-encode_zcl}
use cc2530_zigbee.ZclAttributes.{reply_header}
use cc2530_zigbee.ZclWrite.{Edit, Output, WriteInfo, answered}
use cc2530_zigbee.ZclDispatch.{global_reply}

reply_bit : (x : ℕ) → IsByte x → u8 (bit_or (bit_xor x 0x08) 0x10) / 4 % 2 ≡ x / 4 % 2
unfolding holds_below
reply_bit x h = byte_law (λ y. u8 (bit_or (bit_xor y 0x08) 0x10) / 4 % 2) (λ y. y / 4 % 2) x refl h

reply-Fits : (h : Header) (command : ℕ) → Fits h → Fits (global_reply h command)
reply-Fits h command f = record {
  flags = omega arith;
  manufacturer_code = f.manufacturer_code;
  unsent = elim f.unsent [ inl q ↦ inl (reply_bit h.flags f.flags ∙ q) | inr q ↦ inr q ];
}

-- Its direction is turned, and it asks for no default response.
reply_direction :
    (x : ℕ)
    → IsByte x
    → (u8 (bit_or (bit_xor x 0x08) 0x10) / 8 % 2 + x / 8 % 2 ≡ 1)
      × (u8 (bit_or (bit_xor x 0x08) 0x10) / 16 % 2 ≡ 1)
unfolding holds_below
reply_direction x h = (
  byte_law (λ y. u8 (bit_or (bit_xor y 0x08) 0x10) / 8 % 2 + y / 8 % 2) (λ y. 1) x refl h,
  byte_law (λ y. u8 (bit_or (bit_xor y 0x08) 0x10) / 16 % 2) (λ y. 1) x refl h,
)

-- A header as the reply to the header `h`: of a global command, with the same sequence number and
-- manufacturer, in the other direction, and without asking for a default response.
pub record Turned (h g : Header) (command : ℕ) : Type 0 where
  pub type : g.type ≡ 0
  pub command_id : g.command_id ≡ command
  pub sequence : g.sequence ≡ h.sequence
  pub manufacturer :
      (g.manufacturer_code ≡ h.manufacturer_code) × (g.flags / 4 % 2 ≡ h.flags / 4 % 2)
  pub direction : g.flags / 8 % 2 + h.flags / 8 % 2 ≡ 1
  pub no_default : g.flags / 16 % 2 ≡ 1

global_reply-Turned :
    (h : Header) (command : ℕ) → Fits h → Turned h (global_reply h command) command
global_reply-Turned h command f = record {
  type = refl;
  command_id = refl;
  sequence = refl;
  manufacturer = (refl, reply_bit h.flags f.flags);
  direction = (reply_direction h.flags f.flags).0;
  no_default = (reply_direction h.flags f.flags).1;
}

-- A response with its length and command, as the reply to the request with the header `h`.
pub record IsReply (h : Header) (r : List ℕ) (size command : ℕ) : Type 0 where
  pub sized : size ≡ length r
  pub frame :
      (f : FrameInfo) × ((ZclFrame.decode (bytes r) true ≡ (ok, some f))
        × Turned h f.header command)

pub encoded-IsReply :
    (h : Header) (command capacity : ℕ) (payload r : List ℕ)
    → Fits h
    → ZclFrame.encode true (global_reply h command) (bytes payload) capacity ≡ (ok, some r)
    → IsReply h r (length r) command
encoded-IsReply h command capacity payload r f e = record {
  sized = refl;
  frame = (
    _,
    (
      (decode-encode_zcl (global_reply h command) payload capacity (reply-Fits h command f) e).0,
      global_reply-Turned h command f,
    ),
  );
}

-- The reply to a global command keeps its type.
same_header :
    (h : Header) (command : ℕ) → h.type ≡ 0 → reply_header h command ≡ global_reply h command
same_header h command t = ap (λ k. record (global_reply h command) { type = k }) t

pub global-IsReply :
    (h : Header) (command capacity : ℕ) (payload r : List ℕ)
    → Fits h
    → h.type ≡ 0
    → ZclFrame.encode true (reply_header h command) (bytes payload) capacity ≡ (ok, some r)
    → IsReply h r (length r) command
global-IsReply h command capacity payload r f t e =
    encoded-IsReply h command capacity payload r f (rw (same_header h command t) at e)

pub answered-IsReply :
    (h : Header) (info : WriteInfo) (wrote last : ℕ) (edit : Option Edit)
    (s : Result × Option (List ℕ)) (o : Output) (r : List ℕ)
    → ((b : List ℕ) → s ≡ (ok, some b) → IsReply h b (length b) info.command_id)
    → answered info wrote last edit s ≡ (ok, some o)
    → o.response ≡ some r
    → IsReply h r o.info.length o.info.command_id
unfolding answered
answered-IsReply h info wrote last edit (ok, some b) o r k e q =
    let same : b ≡ r = cc in
    let sized : length b ≡ o.info.length = cc in
    let named : info.command_id ≡ o.info.command_id = cc in rw (← same, ← sized, ← named) (k b refl)
answered-IsReply h info wrote last edit (ok, none) o r k e q = absurd (cc)
answered-IsReply h info wrote last edit (_, s) o r k e q = absurd (cc)
