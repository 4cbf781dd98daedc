-- ===== src/ZclWrite/Fuel.antt =====
-- The fuel of the write loop.
use cc2530_zigbee.Base.{
  ℕ, zero, suc, ◌<◌, ◌≡◌, refl, ◌⊎◌, inl, inr, true, Option, List, [], ◌∷◌, length, drop, bytes,
  arith, length-drop, or_le16,
}
use cc2530_zigbee.ZclFrame.{Result, ok}
use cc2530_zigbee.ZclValue
use cc2530_zigbee.ZclAttributes.{Attribute, find}
use cc2530_zigbee.ZclWrite.{Edit, Progress, judge, extent, scan}

-- One turn of the loop, with two continuations that agree.
turn_same :
    (p : Progress) (rc : Result) (answer : Result ⊎ Progress)
    (one two : Progress → Result ⊎ (Result × Progress))
    → ((z : Progress) → one z ≡ two z)
    → (elim rc as (λ x. Result ⊎ (Result × Progress)) [
      | ok ↦ elim answer as (λ x. Result ⊎ (Result × Progress)) [ inl s ↦ inl s | inr z ↦ one z ]
      | s ↦ inr (s, p)
    ])
      ≡ (elim rc as (λ x. Result ⊎ (Result × Progress)) [
        | ok ↦ elim answer as (λ x. Result ⊎ (Result × Progress)) [ inl s ↦ inl s | inr z ↦ two z ]
        | s ↦ inr (s, p)
      ])
turn_same p ok (inl s) one two h = refl
turn_same p ok (inr z) one two h = h z
turn_same p _ answer one two h = refl

-- Any two amounts of fuel above the length of the payload give the same outcome, so that the fuel
-- of `scan_all`, which is one more than the length, never ends the loop.
pub scan_fuel :
    (n m : ℕ) (entries : List Attribute) (edit : Option Edit) (payload : List ℕ) (p : Progress)
    → length payload < n
    → length payload < m
    → scan n entries edit payload p ≡ scan m entries edit payload p
unfolding scan
scan_fuel zero m entries edit payload p h k = absurd (omega arith)
scan_fuel (suc n) zero entries edit payload p h k = absurd (omega arith)
scan_fuel (suc n) (suc m) entries edit [] p h k = refl
scan_fuel (suc n) (suc m) entries edit (x ∷ []) p h k = refl
scan_fuel (suc n) (suc m) entries edit (x ∷ y ∷ []) p h k = refl
scan_fuel (suc n) (suc m) entries edit (low ∷ high ∷ type ∷ rest) p h k =
    let id = or_le16 low high in
    let width = (extent type (ZclValue.decode type (bytes rest) true)).1 in
    turn_same p (extent type (ZclValue.decode type (bytes rest) true)).0
      (judge (find id entries) edit id type rest p) (λ z. scan n entries edit (drop width rest) z)
      (λ z. scan m entries edit (drop width rest) z)
      (λ z.
        scan_fuel n m entries edit (drop width rest) z (omega (arith, length-drop width rest))
          (omega (arith, length-drop width rest)))
