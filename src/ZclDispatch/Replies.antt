-- ===== src/ZclDispatch/Replies.antt =====
-- The responses of zcl_dispatch_unicast in src/zcl_dispatch.c.
use cc2530_zigbee.Base.{
  ℕ, ◌+◌, ◌≡◌, ◌≢◌, ◌⊎◌, inl, inr, refl, bit_and, Bool, true, ◌&&◌, ltb, ◌==◌, ◌!=◌, if◌then◌else◌,
  Bool-cases, Option, none, some, List, length, drop, bytes, IsBytes, arith,
}
use cc2530_zigbee.ZclFrame
use cc2530_zigbee.ZclFrame.{Result, ok, truncated, Header, FrameInfo, size_of, read_header}
use cc2530_zigbee.ZclFrame.RoundTrip.{Fits}
use cc2530_zigbee.ZclFrame.Decoded.{decoded-Fits}
use cc2530_zigbee.ZclAttributes.{
  AttributeSet, ReadInfo, read_decoded, read_checked, read_attrs, check_set, declared, budget_of,
}
use cc2530_zigbee.ZclWrite.{Output, handle}
use cc2530_zigbee.ZclDispatch.Discover.{Listing}
use cc2530_zigbee.ZclDispatch.{
  DispatchInfo, Answer, global_reply, replied, written, attributes_read, default_received,
  default_reply, discovered, discover, discover_command, context_matches, is_write, dispatch_frame,
  dispatch_decoded, dispatch_checked, dispatch,
}
use cc2530_zigbee.ZclDispatch.Reply.{IsReply, encoded-IsReply}
use cc2530_zigbee.ZclDispatch.Served.{no_answer, conclude-IsReply, read_frame-IsReply}

module _ (frame : FrameInfo) (fits : Fits frame.header) where
  -- The response of an answer, if it stores one.
  abbrev Replies : Answer → Type 0
  Replies a =
      (r : List ℕ) (info : DispatchInfo)
      → a ≡ (ok, some (some r, info))
      → IsReply frame.header r info.length info.command_id

  replied-Replies :
      (info : DispatchInfo) (s : Result × Option (List ℕ))
      → ((b : List ℕ) → s ≡ (ok, some b) → IsReply frame.header b (length b) info.command_id)
      → Replies (replied info s)
  unfolding replied
  replied-Replies info (ok, some b) k r i e =
      let same : b ≡ r = cc in
      let sized : length b ≡ i.length = cc in
      let named : info.command_id ≡ i.command_id = cc in rw (← same, ← sized, ← named) (k b refl)
  replied-Replies info (ok, none) k r i e = absurd (cc)
  replied-Replies info (_, s) k r i e = absurd (cc)

  written-Replies :
      (s : Result × Option Output)
      → ((o : Output) (r : List ℕ)
          → s ≡ (ok, some o)
          → o.response ≡ some r
          → IsReply frame.header r o.info.length o.info.command_id)
      → Replies (written s)
  unfolding written
  written-Replies (ok, some o) k r i e =
      let same : o.response ≡ some r = cc in
      let sized : o.info.length ≡ i.length = cc in
      let named : o.info.command_id ≡ i.command_id = cc in rw (← sized, ← named) (k o r refl same)
  written-Replies (ok, none) k r i e = absurd (cc)
  written-Replies (_, s) k r i e = absurd (cc)

  attributes_read-Replies :
      (s : Result × Option (List ℕ × ReadInfo))
      → ((r : List ℕ) (i : ReadInfo)
          → s ≡ (ok, some (r, i))
          → IsReply frame.header r i.length i.command_id)
      → Replies (attributes_read frame s)
  unfolding attributes_read
  attributes_read-Replies (ok, some (b, j)) k r i e =
      let same : b ≡ r = cc in
      let sized : j.length ≡ i.length = cc in
      let named : j.command_id ≡ i.command_id = cc in rw (← same, ← sized, ← named) (k b j refl)
  attributes_read-Replies (ok, none) k r i e = absurd (cc)
  attributes_read-Replies (_, s) k r i e = absurd (cc)

  default_reply-Replies : (status capacity : ℕ) → Replies (default_reply frame status capacity)
  unfolding default_reply
  default_reply-Replies status capacity =
      replied-Replies _ _ (λ b z. encoded-IsReply frame.header 0x0b capacity _ b fits z)

  discovered-Replies :
      (requested capacity : ℕ) (o : Option (Result ⊎ Listing))
      → Replies (discovered frame requested capacity o)
  unfolding discovered
  discovered-Replies requested capacity (some (inr l)) =
      replied-Replies _ _ (λ b z. encoded-IsReply frame.header 0x0d capacity _ b fits z)
  discovered-Replies requested capacity (some (inl s)) = λ r i e. absurd (cc)
  discovered-Replies requested capacity none = λ r i e. absurd (cc)

  discover_command-Replies :
      (s : AttributeSet) (payload : List ℕ) (capacity : ℕ)
      → Replies (discover_command s frame payload capacity)
  unfolding discover_command discover
  discover_command-Replies s payload capacity r i e =
      elim (Bool-cases (ltb frame.payload_length 3)) [
        | inl c1 ↦ default_reply-Replies 0x80 capacity r i (rw c1 at e)
        | inr c1 ↦ elim (Bool-cases (s.manufacturer_specific != 0 && frame.payload_length != 3)) [
          | inl c2 ↦ absurd (no_answer _ (some r, i) (rw (c1, c2) at e))
          | inr c2 ↦
              elim (Bool-cases
                (ltb (budget_of capacity) (size_of (global_reply frame.header 0x0d).flags + 1))) [
                  | inl c3 ↦ absurd (no_answer _ (some r, i) (rw (c1, c2, c3) at e))
                  | inr c3 ↦ discovered-Replies _ capacity _ r i (rw (c1, c2, c3) at e)
                ]
        ]
      ]

  default_received-Replies :
      (s : AttributeSet) (payload : List ℕ) (context : Bool)
      → Replies (default_received s frame payload context)
  unfolding default_received
  default_received-Replies s payload context r i e = absurd (ground arith)

  handled :
      (s : AttributeSet) (request : List ℕ) (capacity : ℕ) (o : Output) (r : List ℕ)
      → frame.header.type ≡ 0
      → handle
          (declared s.attributes s.count)
          frame
          (drop frame.payload_offset request)
          capacity
          none
        ≡ (ok, some o)
      → o.response ≡ some r
      → IsReply frame.header r o.info.length o.info.command_id
  unfolding handle
  handled s request capacity o r t e q = conclude-IsReply frame fits none capacity _ o r t e q

  -- All commands but for the decoding of the request.
  dispatch_frame-Replies :
      (s : AttributeSet) (request : List ℕ) (capacity : ℕ)
      → ((r : List ℕ) (i : ReadInfo)
          → frame.header.type ≡ 0
          → read_attrs (some s) (bytes request) true capacity ≡ (ok, some (r, i))
          → IsReply frame.header r i.length i.command_id)
      → Replies (dispatch_frame s request capacity frame)
  unfolding dispatch_frame
  dispatch_frame-Replies s request capacity read r i e = elim (Bool-cases g1) [
    | inl c1 ↦ absurd (no_answer _ (some r, i) (rw c1 at e))
    | inr c1 ↦ elim (Bool-cases g2) [
      | inl c2 ↦ default_received-Replies s _ _ r i (rw (c1, c2) at e)
      | inr c2 ↦ elim (Bool-cases g3) [
        | inl c3 ↦
            written-Replies _ (λ o b h q. handled s request capacity o b (ground arith) h q) r i
              (rw (c1, c2, c3) at e)
        | inr c3 ↦ elim (Bool-cases g4) [
          | inl c4 ↦ absurd (no_answer _ (some r, i) (rw (c1, c2, c3, c4) at e))
          | inr c4 ↦ elim (Bool-cases g5) [
            | inl c5 ↦
                attributes_read-Replies _ (λ b j h. read b j (ground arith) h) r i
                  (rw (c1, c2, c3, c4, c5) at e)
            | inr c5 ↦ elim (Bool-cases g6) [
              | inl c6 ↦
                  discover_command-Replies s _ capacity r i (rw (c1, c2, c3, c4, c5, c6) at e)
              | inr c6 ↦ default_reply-Replies 0x81 capacity r i (rw (c1, c2, c3, c4, c5, c6) at e)
            ]
          ]
        ]
      ]
    ]
  ]
    where
      g1 : Bool
      g1 = (if bit_and frame.header.flags 0x08 != 0 then 1 else 0) != s.side

      g2 : Bool
      g2 = frame.header.type == 0 && frame.header.command_id == 0x0b

      g3 : Bool
      g3 =
          context_matches s frame.header
          && frame.header.type == 0
          && is_write frame.header.command_id

      g4 : Bool
      g4 = frame.header.type == 0 && frame.header.command_id == 5

      g5 : Bool
      g5 = context_matches s frame.header && frame.header.type == 0 && frame.header.command_id == 0

      g6 : Bool
      g6 =
          context_matches s frame.header
          && frame.header.type == 0
          && frame.header.command_id == 0x0c

check_cases :
    (r : Result)
    → (r ≡ ok)
      ⊎ ((s : AttributeSet) (request : List ℕ) (capacity : ℕ) (o : Option (List ℕ) × DispatchInfo)
          → dispatch_checked s (bytes request) capacity r ≢ (ok, some o))
unfolding dispatch_checked
check_cases ok = inl refl
check_cases _ = inr (λ s request capacity o e. cc)

-- Any response that `zcl_dispatch_unicast` stores for a request of bytes is a frame of the length
-- and the command that it answers: it decodes to a global frame with the sequence number and the
-- manufacturer of the request, in the other direction and asking for no default response.
pub dispatch-IsReply :
    (s : AttributeSet) (request : List ℕ) (capacity : ℕ) (frame : FrameInfo) (r : List ℕ)
    (info : DispatchInfo)
    → IsBytes request
    → ZclFrame.decode (bytes request) true ≡ (ok, some frame)
    → dispatch (some s) (bytes request) true capacity ≡ (ok, some (some r, info))
    → IsReply frame.header r info.length info.command_id
unfolding dispatch dispatch_checked dispatch_decoded read_attrs read_checked read_decoded
dispatch-IsReply s request capacity frame r info h d e = elim (check_cases (check_set (some s))) [
  | inl c ↦
      let fits = decoded-Fits request frame h d in
      dispatch_frame-Replies frame fits s request capacity
        (λ b j t z. read_frame-IsReply frame fits s request capacity b j t (rw (c, d) at z)) r info
        (rw (c, d) at e)
  | inr n ↦ absurd (n s request capacity (some r, info) e)
]
