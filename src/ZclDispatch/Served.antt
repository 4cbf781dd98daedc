-- ===== src/ZclDispatch/Served.antt =====
-- The responses of zcl_wr_handle and zcl_read_attrs_unicast, which zcl_dispatch_unicast passes on.
use cc2530_zigbee.Base.{
  ℕ, ◌+◌, ◌≡◌, ◌≢◌, ◌⊎◌, inl, inr, refl, bit_and, true, not, ◌||◌, ltb, ◌==◌, ◌!=◌, Bool-cases,
  Option, none, some, List, [], ◌∷◌, length, bytes, arith,
}
use cc2530_zigbee.ZclFrame
use cc2530_zigbee.ZclFrame.{Result, ok, truncated, Header, FrameInfo, size_of, read_header}
use cc2530_zigbee.ZclFrame.RoundTrip.{Fits}
use cc2530_zigbee.ZclAttributes
use cc2530_zigbee.ZclAttributes.{
  Attribute, AttributeSet, ReadInfo, reply_header, reply, read_frame, read_decoded, read_checked,
  read_attrs, check_set, read_records, in_context, declared, budget_of,
}
use cc2530_zigbee.ZclWrite.{Edit, Output, Progress, malformed, carried_out, silent, conclude}
use cc2530_zigbee.ZclDispatch.Reply.{IsReply, global-IsReply, answered-IsReply}

pub no_answer {ℓ} :
    {A : Type ℓ} (r : Result) (y : A) → ◌≢◌ {A = Result × Option A} (r, none) (ok, some y)
no_answer r y h = absurd (cc)

module _ (frame : FrameInfo) (fits : Fits frame.header) where
  pub conclude-IsReply :
      (edit : Option Edit) (capacity : ℕ) (s : Result ⊎ (Result × Progress)) (o : Output)
      (r : List ℕ)
      → frame.header.type ≡ 0
      → conclude frame edit capacity s ≡ (ok, some o)
      → o.response ≡ some r
      → IsReply frame.header r o.info.length o.info.command_id
  unfolding conclude carried_out malformed
  conclude-IsReply edit capacity (inl s) o r t e q = absurd (cc)
  conclude-IsReply edit capacity (inr (ok, p)) o r t e q =
      elim (Bool-cases (frame.header.command_id == 5)) [
        | inl c ↦
            let said : silent frame edit p ≡ (ok, some o) = rw c at e in
            let no_response : none ≡ o.response = cc in absurd (cc)
        | inr c ↦
            answered-IsReply frame.header _ _ p.last edit _ o r
              (λ b z. global-IsReply frame.header 4 capacity _ b fits t z) (rw c at e) q
      ]
  conclude-IsReply edit capacity (inr (truncated, p)) o r t e q =
      elim (Bool-cases (frame.header.command_id == 5)) [
        | inl c ↦ absurd (ground arith)
        | inr c ↦
            answered-IsReply frame.header _ _ p.last edit _ o r
              (λ b z. global-IsReply frame.header 0x0b capacity _ b fits t z) (rw c at e) q
      ]
  conclude-IsReply edit capacity (inr (_, p)) o r t e q = absurd (cc)

  reply-IsReply :
      (command : ℕ) (s : Result) (payload : List ℕ) (requested returned capacity : ℕ) (r : List ℕ)
      (i : ReadInfo)
      → frame.header.type ≡ 0
      → reply (reply_header frame.header command) s payload requested returned capacity
        ≡ (ok, some (r, i))
      → IsReply frame.header r i.length i.command_id
  unfolding reply
  reply-IsReply command ok payload requested returned capacity r i t e =
      replied_as (ZclFrame.encode true (reply_header frame.header command) (bytes payload) capacity)
        (λ b z. global-IsReply frame.header command capacity payload b fits t z) e
    where
      replied_as :
          (s : Result × Option (List ℕ))
          → ((b : List ℕ) → s ≡ (ok, some b) → IsReply frame.header b (length b) command)
          → ZclAttributes.replied (reply_header frame.header command) requested returned s
            ≡ (ok, some (r, i))
          → IsReply frame.header r i.length i.command_id
      replied_as (ok, some b) k z =
          let same : b ≡ r = cc in
          let sized : length b ≡ i.length = cc in
          let named : command ≡ i.command_id = cc in rw (← same, ← sized, ← named) (k b refl)
      replied_as (ok, none) k z = absurd (cc)
      replied_as (_, s) k z = absurd (cc)
  reply-IsReply command _ payload requested returned capacity r i t e = absurd (cc)

  pub read_frame-IsReply :
      (s : AttributeSet) (request : List ℕ) (capacity : ℕ) (r : List ℕ) (i : ReadInfo)
      → frame.header.type ≡ 0
      → read_frame s request capacity frame ≡ (ok, some (r, i))
      → IsReply frame.header r i.length i.command_id
  unfolding read_frame
  read_frame-IsReply s request capacity r i t e =
      elim (Bool-cases (frame.header.type != 0 || frame.header.command_id != 0)) [
        | inl c1 ↦ absurd (no_answer _ (r, i) (rw c1 at e))
        | inr c1 ↦ elim (Bool-cases (not (in_context s frame.header))) [
          | inl c2 ↦ absurd (no_answer _ (r, i) (rw (c1, c2) at e))
          | inr c2 ↦
              elim (Bool-cases (frame.payload_length == 0 || bit_and frame.payload_length 1 != 0)) [
                | inl c3 ↦
                    reply-IsReply 0x0b ok (0 ∷ 0x80 ∷ []) 0 0 capacity r i t (rw (c1, c2, c3) at e)
                | inr c3 ↦ elim (Bool-cases (ltb (budget_of capacity) (frame.payload_offset + 3))) [
                  | inl c4 ↦ absurd (no_answer _ (r, i) (rw (c1, c2, c3, c4) at e))
                  | inr c4 ↦ reply-IsReply 1 _ _ _ _ capacity r i t (rw (c1, c2, c3, c4) at e)
                ]
              ]
        ]
      ]
