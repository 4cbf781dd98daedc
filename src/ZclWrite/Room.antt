-- ===== src/ZclWrite/Room.antt =====
-- The error records of a write stay within the size of the request.
use cc2530_zigbee.Base.{
  ℕ, zero, suc, u8, ◌/◌, ◌^◌, ◌+◌, ◌≤◌, ◌≡◌, refl, ◌⊎◌, inl, inr, true, Option, none, some, List,
  [], ◌∷◌, length, drop, bytes, arith, length-append, length-drop, or_le16,
}
use cc2530_zigbee.ZclFrame.{Result, ok}
use cc2530_zigbee.ZclValue
use cc2530_zigbee.ZclAttributes.{Attribute, find}
use cc2530_zigbee.ZclWrite.{Edit, Progress, begun, judge, extent, scan, scan_all}

judge_room :
    (o : Option Attribute) (edit : Option Edit) (id type : ℕ) (data' : List ℕ) (p z : Progress)
    → judge o edit id type data' p ≡ inr z
    → length z.body ≤ length p.body + 3
unfolding judge
judge_room none edit id type data' p z e =
    ground (arith, length-append p.body (0x86 ∷ u8 id ∷ u8 (id / 2 ^ 8) ∷ []))
judge_room (some a) edit id type data' p z e = ground (
  arith,
  length-append p.body (0x8d ∷ u8 id ∷ u8 (id / 2 ^ 8) ∷ []),
  length-append p.body (0x88 ∷ u8 id ∷ u8 (id / 2 ^ 8) ∷ []),
)

-- One turn of the loop, by what its two tests answer.
turn_room :
    (p q : Progress) (r rc : Result) (rest : List ℕ) (answer : Result ⊎ Progress)
    (later : Progress → Result ⊎ (Result × Progress))
    → ((z : Progress) → answer ≡ inr z → length z.body ≤ length p.body + 3)
    → ((z : Progress) → later z ≡ inr (r, q) → length q.body ≤ length z.body + length rest)
    → (elim rc as (λ x. Result ⊎ (Result × Progress)) [
      | ok ↦ elim answer as (λ x. Result ⊎ (Result × Progress)) [ inl s ↦ inl s | inr z ↦ later z ]
      | s ↦ inr (s, p)
    ])
      ≡ inr (r, q)
    → length q.body ≤ length p.body + 3 + length rest
turn_room p q r ok rest (inl s) later now then' e = absurd cc
turn_room p q r ok rest (inr z) later now then' e = omega (arith, now z refl, then' z e)
turn_room p q r _ rest answer later now then' e = ground arith

scan_room :
    (fuel : ℕ) (entries : List Attribute) (edit : Option Edit) (payload : List ℕ) (p q : Progress)
    (r : Result)
    → scan fuel entries edit payload p ≡ inr (r, q)
    → length q.body ≤ length p.body + length payload
unfolding scan
scan_room zero entries edit payload p q r e = ground arith
scan_room (suc fuel) entries edit [] p q r e = ground arith
scan_room (suc fuel) entries edit (x ∷ []) p q r e = ground arith
scan_room (suc fuel) entries edit (x ∷ y ∷ []) p q r e = ground arith
scan_room (suc fuel) entries edit (low ∷ high ∷ type ∷ rest) p q r e =
    let id = or_le16 low high in
    let width = (extent type (ZclValue.decode type (bytes rest) true)).1 in
    omega (
      arith,
      turn_room p q r (extent type (ZclValue.decode type (bytes rest) true)).0 rest
          (judge (find id entries) edit id type rest p)
          (λ z. scan fuel entries edit (drop width rest) z)
          (judge_room (find id entries) edit id type rest p)
          (λ z f.
            omega (
              arith,
              scan_room fuel entries edit (drop width rest) z q r f,
              length-drop width rest,
            ))
          e,
    )

-- Whatever the request, the loop of `zcl_wr_handle` stores no more octets of error records than the
-- request's payload has, so that a payload that fits the buffer never overruns it.
pub scan_all_room :
    (entries : List Attribute) (edit : Option Edit) (payload : List ℕ) (r : Result) (q : Progress)
    → scan_all entries edit payload ≡ inr (r, q)
    → length q.body ≤ length payload
unfolding scan_all
scan_all_room entries edit [] r q e = ground arith
scan_all_room entries edit (x ∷ payload) r q e =
    omega (arith, scan_room (suc (length (x ∷ payload))) entries edit (x ∷ payload) begun q r e)
