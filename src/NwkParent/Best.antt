-- ===== src/NwkParent/Best.antt =====
-- The best of the eligible entries in `nwk_parent_select` of src/nwk_parent.c.
use cc2530_zigbee.Base.{
  ℕ, ◌≤◌, ◌<◌, ◌≡◌, ◌≢◌, ◌⊎◌, refl, sym, ap, ◌∙◌, Bool, true, false, ◌&&◌, ltb, Option, none, some,
  List, [], ◌∷◌, arith, Bool-cases, inl, inr,
}
use cc2530_zigbee.NwkParent.{Eligible, dominates, improves, best_from}

abbrev pub AllOf : (Eligible → Type 0) → List Eligible → Type 0
AllOf P [] = Unit {0}
AllOf P (e ∷ es) = P e × AllOf P es

abbrev pub AnyOf : Eligible → List Eligible → Type 0
AnyOf b [] = b ≢ b
AnyOf b (e ∷ es) = (b ≡ e) ⊎ AnyOf b es

value_or : Eligible → Option Eligible → Eligible
value_or e none = e
value_or e (some x) = x

same_value : (a b : Eligible) → some a ≡ some b → a ≡ b
unfolding value_or
same_value a b q = ap (value_or a) q

least_self : (b c : Eligible) → some b ≡ some c → b.cost ≤ c.cost
least_self b c q = rw (same_value b c q) (omega arith)

dearer : (b x e : ℕ) → b ≤ x → (d : Bool) → d ≡ true → (d && ltb e x) ≡ false → b ≤ e
dearer b x e le d t c = ground arith

module _ (rivals : List Eligible) where
  -- The best is one of the entries, or the one before them.
  pub best_from-AnyOf :
      (best : Option Eligible) (es : List Eligible) (b : Eligible)
      → best_from rivals best es ≡ some b
      → (best ≡ some b) ⊎ AnyOf b es
  unfolding best_from
  best_from-AnyOf best [] b h = inl h
  best_from-AnyOf best (e ∷ es) b h =
      elim (Bool-cases (dominates e.update rivals && improves best e)) [
        | inl c ↦
            let h' : best_from rivals (some e) es ≡ some b = rw c at h in
            elim (best_from-AnyOf (some e) es b h') [
              | inl q ↦ inr (inl (sym (same_value e b q)))
              | inr m ↦ inr (inr m)
            ]
        | inr c ↦
            let h' : best_from rivals best es ≡ some b = rw c at h in
            elim (best_from-AnyOf best es b h') [ inl q ↦ inl q | inr m ↦ inr (inr m) ]
      ]

  pub best_from-dominates :
      (best : Option Eligible) (es : List Eligible) (b : Eligible)
      → ((c : Eligible) → best ≡ some c → dominates c.update rivals ≡ true)
      → best_from rivals best es ≡ some b
      → dominates b.update rivals ≡ true
  unfolding best_from
  best_from-dominates best [] b d h = d b h
  best_from-dominates best (e ∷ es) b d h =
      elim (Bool-cases (dominates e.update rivals && improves best e)) [
        | inl c ↦
            let h' : best_from rivals (some e) es ≡ some b = rw c at h in
            let here : dominates e.update rivals ≡ true = ground arith in
            best_from-dominates (some e) es b (λ x q. rw (← same_value e x q) here) h'
        | inr c ↦
            let h' : best_from rivals best es ≡ some b = rw c at h in
            best_from-dominates best es b d h'
      ]

  -- It costs no more than any entry that dominates, nor than the one before them.
  pub best_from_least :
      (best : Option Eligible) (es : List Eligible) (b : Eligible)
      → best_from rivals best es ≡ some b
      → ((c : Eligible) → best ≡ some c → b.cost ≤ c.cost)
        × AllOf (λ e. dominates e.update rivals ≡ true → b.cost ≤ e.cost) es
  unfolding best_from improves
  best_from_least best [] b h = (λ c q. least_self b c (sym h ∙ q), tt)
  best_from_least none (e ∷ es) b h = elim (Bool-cases (dominates e.update rivals && true)) [
    | inl c ↦
        let h' : best_from rivals (some e) es ≡ some b = rw c at h in
        let rest = best_from_least (some e) es b h' in
        (λ x q. absurd cc, (λ _. rest.0 e refl, rest.1))
    | inr c ↦
        let h' : best_from rivals none es ≡ some b = rw c at h in
        let rest = best_from_least none es b h' in
        (λ x q. absurd cc, (λ d. absurd (ground arith), rest.1))
  ]
  best_from_least (some x) (e ∷ es) b h =
      elim (Bool-cases (dominates e.update rivals && ltb e.cost x.cost)) [
        | inl c ↦
            let h' : best_from rivals (some e) es ≡ some b = rw c at h in
            let rest = best_from_least (some e) es b h' in
            let here = rest.0 e refl in
            let less : e.cost < x.cost = ground arith in
            (λ y q. rw (← same_value x y q) (omega arith), (λ _. here, rest.1))
        | inr c ↦
            let h' : best_from rivals (some x) es ≡ some b = rw c at h in
            let rest = best_from_least (some x) es b h' in
            let here = rest.0 x refl in
            (
              rest.0,
              (λ d. dearer b.cost x.cost e.cost here (dominates e.update rivals) d c, rest.1),
            )
      ]

  -- Without a best no entry dominates.
  pub best_from-none :
      (best : Option Eligible) (es : List Eligible)
      → best_from rivals best es ≡ none
      → (best ≡ none) × AllOf (λ e. dominates e.update rivals ≡ false) es
  unfolding best_from improves
  best_from-none best [] h = (h, tt)
  best_from-none none (e ∷ es) h = elim (Bool-cases (dominates e.update rivals && true)) [
    | inl c ↦
        let h' : best_from rivals (some e) es ≡ none = rw c at h in
        let no_best : some e ≡ none = (best_from-none (some e) es h').0 in absurd cc
    | inr c ↦
        let h' : best_from rivals none es ≡ none = rw c at h in
        (refl, (ground arith, (best_from-none none es h').1))
  ]
  best_from-none (some x) (e ∷ es) h =
      elim (Bool-cases (dominates e.update rivals && ltb e.cost x.cost)) [
        | inl c ↦
            let h' : best_from rivals (some e) es ≡ none = rw c at h in
            let no_best : some e ≡ none = (best_from-none (some e) es h').0 in absurd cc
        | inr c ↦
            let h' : best_from rivals (some x) es ≡ none = rw c at h in
            let no_best : some x ≡ none = (best_from-none (some x) es h').0 in absurd cc
      ]
