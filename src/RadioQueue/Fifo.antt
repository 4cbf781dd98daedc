-- ===== src/RadioQueue/Fifo.antt =====
-- The requests, the received frames and the frame to be sent as queues of bounded length.
use cc2530_zigbee.Base.{
  ℕ, zero, suc, ◌+◌, ◌%◌, ◌≤◌, ◌<◌, ◌≡◌, refl, ◌∙◌, ap, bit_and, Bool-cases, ltb, ◌==◌, true, false,
  List, [], ◌∷◌, ◌++◌, length, get_or, set, u8, sub8, arith, mask_0x03, get_or-set_self,
  get_or-set_ne, IsByte, length-set, inl, inr, ◌⊎◌,
}
use cc2530_zigbee.RadioQueue.{ok, full, Queue, waiting, enqueue, request_rx, restore}

-- The cookies in the ring from an index on.
unfoldable pub cookies : List ℕ → ℕ → ℕ → List ℕ
cookies ring tail zero = []
cookies ring tail (suc n) = get_or ring (tail % 4) 0 ∷ cookies ring (u8 (tail + 1)) n

-- The requests that wait, the oldest first.
abbrev pub requests : Queue → List ℕ
requests q = cookies q.events q.event_tail (waiting q)

-- The ring is in order: indices are bytes, at most four apart, and there is no fault.
pub record InOrder (q : Queue) : Type 0 where
  pub fault : q.fault ≡ ok
  pub indices : IsByte q.event_head × IsByte q.event_tail
  pub bound : waiting q ≤ 4
  pub ring : length q.events ≡ 4

-- A write behind the last cookie leaves the cookies alone.
cookies-set :
    (ring : List ℕ) (tail n i v : ℕ)
    → n ≤ 3
    → i ≡ (tail + n) % 4
    → cookies (set ring i v) tail n ≡ cookies ring tail n
unfolding cookies
cookies-set ring tail zero i v h e = refl
cookies-set ring tail (suc n) i v h e =
    rw
      (
        get_or-set_ne ring i (tail % 4) v 0 (omega arith),
        cookies-set ring (u8 (tail + 1)) n i v (omega arith) (omega arith),
      )
      refl

cookies-snoc :
    (ring : List ℕ) (tail n : ℕ)
    → cookies ring tail (suc n) ≡ cookies ring tail n ++ (get_or ring ((tail + n) % 4) 0 ∷ [])
unfolding cookies
cookies-snoc ring tail zero = ground arith
cookies-snoc ring tail (suc n) =
    let same : (u8 (tail + 1) + n) % 4 ≡ (tail + suc n) % 4 = omega arith in
    ap (λ t. get_or ring (tail % 4) 0 ∷ t) (rw same at (cookies-snoc ring (u8 (tail + 1)) n))

-- A request in order joins the waiting ones as the newest, or, when four wait, is refused as
-- `full` and changes none of them; the queue stays in order.
pub request_rx-requests :
    (cookie : ℕ) (q : Queue)
    → InOrder q
    → InOrder (request_rx cookie true q).1
      × (((waiting q < 4)
            × ((request_rx cookie true q).0 ≡ ok)
            × (requests (request_rx cookie true q).1 ≡ requests q ++ (cookie ∷ [])))
          ⊎ ((waiting q ≡ 4)
              × ((request_rx cookie true q).0 ≡ full)
              × (requests (request_rx cookie true q).1 ≡ requests q)))
unfolding request_rx enqueue restore
request_rx-requests cookie q w = elim (Bool-cases (waiting q == 4)) [
  | inl all ↦
      rw (w.fault, not_more, all)
        (
          record { fault = refl; indices = w.indices; bound = w.bound; ring = w.ring },
          inr (ground arith, refl, refl),
        )
  | inr room ↦
      rw (w.fault, not_more, room)
        (
          record {
            fault = refl;
            indices = (omega arith, w.indices.1);
            bound = ground (arith, w.bound, w.indices);
            ring = length-set q.events (bit_and q.event_head 3) cookie ∙ w.ring;
          },
          inl (ground (arith, w.bound), refl, joined (ground (arith, w.bound))),
        )
]
  where
    not_more : ltb 4 (waiting q) ≡ false
    not_more = ground (arith, w.bound)

    at_tail : waiting q < 4 → bit_and q.event_head 3 ≡ (q.event_tail + waiting q) % 4
    at_tail h = omega (arith, mask_0x03 q.event_head w.indices.0, w.indices)

    joined :
        waiting q < 4
        → cookies
            (set q.events (bit_and q.event_head 3) cookie)
            q.event_tail
            (sub8 (u8 (q.event_head + 1)) q.event_tail)
          ≡ requests q ++ (cookie ∷ [])
    joined h =
        let more : sub8 (u8 (q.event_head + 1)) q.event_tail ≡ suc (waiting q) =
          omega (arith, w.indices) in
        let slot = (q.event_tail + waiting q) % 4 in
        rw (more, at_tail h)
          (cookies-snoc (set q.events slot cookie) q.event_tail (waiting q)
            ∙ rw
                (
                  cookies-set q.events q.event_tail (waiting q) slot cookie (omega arith) refl,
                  get_or-set_self q.events slot cookie 0 (omega (arith, w.ring)),
                )
                refl)
