-- ===== src/ZclWrite/Written.antt =====
-- The value that a write of src/zcl_write.c leaves in the edit.
use cc2530_zigbee.Base.{
  ℕ, zero, suc, ◌^◌, ◌<◌, ◌≡◌, refl, subst, Bool-cases, ◌==◌, ◌⊎◌, inl, inr, true, Option, none,
  some, List, [], ◌∷◌, drop, take, bytes, arith, or_le16, get_or, length,
}
use cc2530_zigbee.ZclFrame.{Result, ok, truncated, FrameInfo}
use cc2530_zigbee.ZclValue
use cc2530_zigbee.ZclAttributes.{Attribute, find}
use cc2530_zigbee.ZclWrite.{
  Edit, Progress, begun, judge, extent, scan, scan_all, Output, WriteInfo, answered, malformed,
  carried_out, conclude, handle, publish, silent,
}

abbrev pub IsWord : ℕ → Type 0
IsWord x = x < 2 ^ 16

pub or_le16-IsWord : (lo hi : ℕ) → IsWord (or_le16 lo hi)
unfolding or_le16
or_le16-IsWord lo hi = omega arith

judge-IsWord :
    (o : Option Attribute) (edit : Option Edit) (id type : ℕ) (data' : List ℕ) (p z : Progress)
    → IsWord p.last
    → judge o edit id type data' p ≡ inr z
    → IsWord z.last
unfolding judge
judge-IsWord none edit id type data' p z w e = ground arith
judge-IsWord (some a) edit id type data' p z w e =
    ground (arith, or_le16-IsWord (get_or data' 0 0) (get_or data' 1 0))

turn-IsWord :
    (p q : Progress) (r rc : Result) (answer : Result ⊎ Progress)
    (later : Progress → Result ⊎ (Result × Progress))
    → IsWord p.last
    → ((z : Progress) → answer ≡ inr z → IsWord z.last)
    → ((z : Progress) → IsWord z.last → later z ≡ inr (r, q) → IsWord q.last)
    → (elim rc as (λ x. Result ⊎ (Result × Progress)) [
      | ok ↦ elim answer as (λ x. Result ⊎ (Result × Progress)) [ inl s ↦ inl s | inr z ↦ later z ]
      | s ↦ inr (s, p)
    ])
      ≡ inr (r, q)
    → IsWord q.last
turn-IsWord p q r ok (inl s) later w now then' e = absurd (cc)
turn-IsWord p q r ok (inr z) later w now then' e = then' z (now z refl) e
turn-IsWord p q r _ answer later w now then' e = ground arith

scan-IsWord :
    (fuel : ℕ) (entries : List Attribute) (edit : Option Edit) (payload : List ℕ) (p q : Progress)
    (r : Result)
    → IsWord p.last
    → scan fuel entries edit payload p ≡ inr (r, q)
    → IsWord q.last
unfolding scan
scan-IsWord zero entries edit payload p q r w e = ground arith
scan-IsWord (suc fuel) entries edit [] p q r w e = ground arith
scan-IsWord (suc fuel) entries edit (x ∷ []) p q r w e = ground arith
scan-IsWord (suc fuel) entries edit (x ∷ y ∷ []) p q r w e = ground arith
scan-IsWord (suc fuel) entries edit (low ∷ high ∷ type ∷ rest) p q r w e =
    let id = or_le16 low high in
    let width = (extent type (ZclValue.decode type (bytes rest) true)).1 in
    turn-IsWord p q r (extent type (ZclValue.decode type (bytes rest) true)).0
      (judge (find id entries) edit id type rest p)
      (λ z. scan fuel entries edit (drop width rest) z) w
      (λ z f. judge-IsWord (find id entries) edit id type rest p z w f)
      (λ z v f. scan-IsWord fuel entries edit (drop width rest) z q r v f) e

scan_all-IsWord :
    (entries : List Attribute) (edit : Option Edit) (payload : List ℕ) (r : Result) (q : Progress)
    → scan_all entries edit payload ≡ inr (r, q)
    → IsWord q.last
unfolding scan_all
scan_all-IsWord entries edit [] r q e = ground arith
scan_all-IsWord entries edit (x ∷ payload) r q e =
    scan-IsWord (suc (length (x ∷ payload))) entries edit (x ∷ payload) begun q r (omega arith) e

-- What a successful write has done to the edit.
abbrev pub Valued : Option Edit → Type 0
Valued none = Unit {0}
Valued (some e) = IsWord e.value

publish-Valued :
    (wrote last : ℕ) (edit : Option Edit)
    → IsWord last
    → Valued edit
    → Valued (publish wrote last edit)
publish-Valued wrote last none w v = tt
publish-Valued wrote last (some e) w v = ground arith

answered-Valued :
    (info : WriteInfo) (wrote last : ℕ) (edit : Option Edit) (s : Result × Option (List ℕ))
    (o : Output)
    → IsWord last
    → Valued edit
    → answered info wrote last edit s ≡ (ok, some o)
    → Valued o.edit
unfolding answered
answered-Valued info wrote last edit (ok, some response) o w v e =
    let q : publish wrote last edit ≡ o.edit = cc in
    subst Valued q (publish-Valued wrote last edit w v)
answered-Valued info wrote last edit (ok, none) o w v e = absurd (cc)
answered-Valued info wrote last edit (_, s) o w v e = absurd (cc)

conclude-Valued :
    (frame : FrameInfo) (edit : Option Edit) (capacity : ℕ) (s : Result ⊎ (Result × Progress))
    (o : Output)
    → ((r : Result) (p : Progress) → s ≡ inr (r, p) → IsWord p.last)
    → Valued edit
    → conclude frame edit capacity s ≡ (ok, some o)
    → Valued o.edit
unfolding conclude carried_out malformed
conclude-Valued frame edit capacity (inl r) o w v e = absurd (cc)
conclude-Valued frame edit capacity (inr (ok, p)) o w v e =
    elim (Bool-cases (frame.header.command_id == 5)) [
      | inl c ↦
          let said : silent frame edit p ≡ (ok, some o) = rw c at e in
          let q : publish p.wrote p.last edit ≡ o.edit = cc in
          subst Valued q (publish-Valued p.wrote p.last edit (w ok p refl) v)
      | inr c ↦ answered-Valued _ _ p.last edit _ o (w ok p refl) v (rw c at e)
    ]
conclude-Valued frame edit capacity (inr (truncated, p)) o w v e =
    elim (Bool-cases (frame.header.command_id == 5)) [
      | inl c ↦ absurd (ground arith)
      | inr c ↦ answered-Valued _ _ p.last edit _ o (w truncated p refl) v (rw c at e)
    ]
conclude-Valued frame edit capacity (inr (_, p)) o w v e = absurd (cc)

-- The value of an edit stays a word.
pub handle-Valued :
    (entries : List Attribute) (frame : FrameInfo) (payload : List ℕ) (capacity : ℕ)
    (edit : Option Edit) (o : Output)
    → Valued edit
    → handle entries frame payload capacity edit ≡ (ok, some o)
    → Valued o.edit
unfolding handle
handle-Valued entries frame payload capacity edit o v e =
    conclude-Valued frame edit capacity (scan_all entries edit (take frame.payload_length payload))
      o (λ r p h. scan_all-IsWord entries edit (take frame.payload_length payload) r p h) v e
