-- ===== src/NwkParent/Collected.antt =====
-- The list that the loop of eligibility in `nwk_parent_select` of src/nwk_parent.c collects: exactly
-- the admissible candidates, unless it meets one whose update id is opposite to the minimum.
use cc2530_zigbee.Base.{
  ℕ, suc, ◌^◌, ◌<◌, ◌≡◌, refl, sym, ap, subst, ◌∙◌, Option, none, some, List, [], ◌∷◌, inl, inr,
}
use cc2530_zigbee.NwkParent.{Candidate, Policy, Eligible, eligible_from, add}
use cc2530_zigbee.NwkParent.Best.{AnyOf}
use cc2530_zigbee.NwkParent.Eligibility.{
  IsAdmissible, IsOpposite, AreBytes, At, eligible_at, round_lem,
}

value : List Eligible → Option (List Eligible) → List Eligible
value d none = d
value d (some xs) = xs

added :
    (e : Eligible) (rest : Option (List Eligible)) (es : List Eligible)
    → add e rest ≡ some es
    → (fs : List Eligible) × ((rest ≡ some fs) × (e ∷ fs ≡ es))
unfolding add value
added e none es h = absurd cc
added e (some fs) es h = (fs, (refl, ap (value es) h))

add-none : (e : Eligible) (rest : Option (List Eligible)) → add e rest ≡ none → rest ≡ none
unfolding add
add-none e none h = refl
add-none e (some fs) h = absurd cc

-- The entry `e` stands for an admissible candidate.
abbrev pub IsOf : Policy → ℕ → List Candidate → Eligible → Type 0
IsOf policy i xs e =
    (k : ℕ) × ((y : Candidate) × ((e ≡ eligible_at policy k y)
        × At i xs k y
        × IsAdmissible policy k y))

later :
    (policy : Policy) (i : ℕ) (x : Candidate) (xs : List Candidate) (e : Eligible)
    → IsOf policy (suc i) xs e
    → IsOf policy i (x ∷ xs) e
later policy i x xs e (k, (y, (q, a, h))) = (k, (y, (q, inr a, h)))

module _ (policy : Policy) (least : policy.minimum_update_id < 2 ^ 8) where
  pub eligible_from-IsOf :
      (i : ℕ) (xs : List Candidate) (es : List Eligible) (e : Eligible)
      → AreBytes xs
      → eligible_from policy i xs ≡ some es
      → AnyOf e es
      → IsOf policy i xs e
  unfolding eligible_from
  eligible_from-IsOf i [] [] e b h m = absurd (m refl)
  eligible_from-IsOf i [] (f ∷ es) e b h m = absurd cc
  eligible_from-IsOf i (x ∷ xs) es e b h m = elim (round_lem policy least i x xs b.0) [
    | inl (q, out) ↦ later policy i x xs e (eligible_from-IsOf (suc i) xs es e b.1 (sym q ∙ h) m)
    | inr (inl (q, o)) ↦ let clash : none ≡ some es = sym q ∙ h in absurd cc
    | inr (inr (q, a)) ↦
        let (fs, (r, z)) =
          added (eligible_at policy i x) (eligible_from policy (suc i) xs) es (sym q ∙ h) in
        elim (subst (AnyOf e) (sym z) m) [
          | inl here ↦ (i, (x, (here, inl (refl, refl), a)))
          | inr there ↦ later policy i x xs e (eligible_from-IsOf (suc i) xs fs e b.1 r there)
        ]
  ]

  -- Every admissible candidate is collected.
  pub eligible_from-AnyOf :
      (i k : ℕ) (xs : List Candidate) (es : List Eligible) (y : Candidate)
      → AreBytes xs
      → eligible_from policy i xs ≡ some es
      → At i xs k y
      → IsAdmissible policy k y
      → AnyOf (eligible_at policy k y) es
  eligible_from-AnyOf i k [] es y b h m a = absurd (m refl)
  eligible_from-AnyOf i k (x ∷ xs) es y b h m a = elim (round_lem policy least i x xs b.0) [
    | inl (q, out) ↦ elim m [
      | inl (z, w) ↦ absurd (out (subst (IsAdmissible policy i) w (rw z at a)) refl)
      | inr there ↦ eligible_from-AnyOf (suc i) k xs es y b.1 (sym q ∙ h) there a
    ]
    | inr (inl (q, o)) ↦ let clash : none ≡ some es = sym q ∙ h in absurd cc
    | inr (inr (q, a')) ↦
        let (fs, (r, z)) =
          added (eligible_at policy i x) (eligible_from policy (suc i) xs) es (sym q ∙ h) in
        subst (AnyOf (eligible_at policy k y)) z (elim m [
          | inl (e, w) ↦ inl (rw (e, w) refl)
          | inr there ↦ inr (eligible_from-AnyOf (suc i) k xs fs y b.1 r there a)
        ])
  ]

  -- Without a list there is a candidate whose update id is opposite to the minimum.
  pub eligible_from-IsOpposite :
      (i : ℕ) (xs : List Candidate)
      → AreBytes xs
      → eligible_from policy i xs ≡ none
      → (k : ℕ) × ((y : Candidate) × (At i xs k y × IsOpposite policy k y))
  unfolding eligible_from
  eligible_from-IsOpposite i [] b h = absurd cc
  eligible_from-IsOpposite i (x ∷ xs) b h = elim (round_lem policy least i x xs b.0) [
    | inl (q, out) ↦
        let (k, (y, (m, o))) = eligible_from-IsOpposite (suc i) xs b.1 (sym q ∙ h) in
        (k, (y, (inr m, o)))
    | inr (inl (q, o)) ↦ (i, (x, (inl (refl, refl), o)))
    | inr (inr (q, a)) ↦
        let (k, (y, (m, o))) =
          eligible_from-IsOpposite (suc i) xs b.1
            (add-none (eligible_at policy i x) (eligible_from policy (suc i) xs) (sym q ∙ h)) in
        (k, (y, (inr m, o)))
  ]
