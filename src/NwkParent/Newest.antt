-- ===== src/NwkParent/Newest.antt =====
-- The newest of the admissible candidates in `nwk_parent_select` of src/nwk_parent.c.
use cc2530_zigbee.Base.{
  ℕ, ◌+◌, ◌%◌, ◌≤◌, ◌<◌, ◌≡◌, ◌⊎◌, refl, sym, ap, subst, ◌∙◌, true, false, leb, ◌^◌, Option, none,
  some, List, [], ◌∷◌, inl, inr, arith, Bool-cases, sub8,
}
use cc2530_zigbee.NwkParent.{
  Candidate, Policy, Eligible, eligible_from, dominates, best_from, entry,
}
use cc2530_zigbee.NwkParent.Best.{
  AllOf, AnyOf, best_from-AnyOf, best_from-dominates, best_from_least,
}
use cc2530_zigbee.NwkParent.Eligibility.{
  IsNotOlder, IsAdmissible, IsOpposite, AreBytes, At, eligible_at, entry-At, At-entry,
  not_older_lem, not_older_elim,
}
use cc2530_zigbee.NwkParent.Collected.{eligible_from-IsOf, eligible_from-AnyOf}

-- The parent among the entries is `x` at index `i`: no admissible entry is newer, nor opposite, and
-- of the entries that are not older than any admissible one none costs less.
pub record IsParent (policy : Policy) (entries : List Candidate) (i : ℕ) (x : Candidate)
    : Type 0 where
  pub listed : entry entries i ≡ some x
  pub admissible : IsAdmissible policy i x
  pub newest :
      (j : ℕ) (y : Candidate)
      → entry entries j ≡ some y
      → IsAdmissible policy j y
      → IsNotOlder x.network.update_id y.network.update_id
  pub cheapest :
      (j : ℕ) (y : Candidate)
      → entry entries j ≡ some y
      → IsAdmissible policy j y
      → ((k : ℕ) (z : Candidate)
          → entry entries k ≡ some z
          → IsAdmissible policy k z
          → IsNotOlder y.network.update_id z.network.update_id)
      → policy.link_cost i ≤ policy.link_cost j

pub all_any :
    (P : Eligible → Type 0) (es : List Eligible) (e : Eligible) → AllOf P es → AnyOf e es → P e
all_any P [] e h m = absurd (m refl)
all_any P (f ∷ es) e h (inl q) = subst P (sym q) h.0
all_any P (f ∷ es) e h (inr m) = all_any P es e h.1 m

dominates_elim :
    (u : ℕ) (es : List Eligible) (e : Eligible)
    → dominates u es ≡ true
    → AnyOf e es
    → sub8 u e.update < 128
unfolding dominates
dominates_elim u [] e h m = absurd (m refl)
dominates_elim u (f ∷ es) e h (inl q) = rw q (ground arith)
dominates_elim u (f ∷ es) e h (inr m) = dominates_elim u es e (ground arith) m

dominates_intro :
    (u : ℕ) (es : List Eligible)
    → ((e : Eligible) → AnyOf e es → sub8 u e.update < 128)
    → dominates u es ≡ true
unfolding dominates
dominates_intro u [] h = refl
dominates_intro u (e ∷ es) h =
    let here = h e (inl refl) in
    let rest = dominates_intro u es (λ f m. h f (inr m)) in
    let low : leb 128 (sub8 u e.update) ≡ false = ground arith in rw (low, rest) refl

pub dominated :
    (u : ℕ) (es : List Eligible)
    → dominates u es ≡ false
    → (e : Eligible) × (AnyOf e es × (128 ≤ sub8 u e.update))
unfolding dominates
dominated u [] h = absurd cc
dominated u (e ∷ es) h = elim (Bool-cases (leb 128 (sub8 u e.update))) [
  | inl c ↦ (e, (inl refl, ground arith))
  | inr c ↦
      let rest : dominates u es ≡ false = ground arith in
      let (f, (m, le)) = dominated u es rest in (f, (inr m, le))
]

byte-At :
    (i k : ℕ) (xs : List Candidate) (y : Candidate)
    → AreBytes xs
    → At i xs k y
    → y.network.update_id < 2 ^ 8
byte-At i k [] y b m = absurd (m refl)
byte-At i k (x ∷ xs) y b (inl (e, q)) = rw q b.0
byte-At i k (x ∷ xs) y b (inr m) = byte-At _ k xs y b.1 m

first-At : (k : ℕ) (xs : List Candidate) (y : Candidate) → entry xs k ≡ some y → At 0 xs k y
first-At k xs y h =
    let z : 0 + k ≡ k = omega arith in subst (λ n. At 0 xs n y) z (entry-At 0 k xs y h)

module _ (policy : Policy) (least : policy.minimum_update_id < 2 ^ 8) (entries : List Candidate)
    (bytes : AreBytes entries) (es : List Eligible)
    (collected : eligible_from policy 0 entries ≡ some es) where
  pub byte_of : (k : ℕ) (y : Candidate) → entry entries k ≡ some y → y.network.update_id < 2 ^ 8
  byte_of k y h = byte-At 0 k entries y bytes (first-At k entries y h)

  pub among :
      (k : ℕ) (y : Candidate)
      → entry entries k ≡ some y
      → IsAdmissible policy k y
      → AnyOf (eligible_at policy k y) es
  among k y h a =
      eligible_from-AnyOf policy least 0 k entries es y bytes collected (first-At k entries y h) a

  -- Where the entry of an element of the list stands.
  pub standing :
      (e : Eligible)
      → AnyOf e es
      → (k : ℕ) × ((y : Candidate) × ((e ≡ eligible_at policy k y)
            × (entry entries k ≡ some y)
            × IsAdmissible policy k y))
  standing e m =
      let (k, (y, (q, at, a))) = eligible_from-IsOf policy least 0 entries es e bytes collected m in
      let (j, (z, h)) = At-entry 0 k entries y at in
      let same : j ≡ k = omega arith in
      (k, (y, (q, subst (λ n. entry entries n ≡ some y) same h, a)))

  dominates_all :
      (j : ℕ) (y : Candidate)
      → entry entries j ≡ some y
      → ((k : ℕ) (z : Candidate)
          → entry entries k ≡ some z
          → IsAdmissible policy k z
          → IsNotOlder y.network.update_id z.network.update_id)
      → dominates y.network.update_id es ≡ true
  dominates_all j y h newest = dominates_intro y.network.update_id es (λ e m.
      let (k, (z, (q, h', a))) = standing e m in
      rw q (
        not_older_elim y.network.update_id z.network.update_id (byte_of j y h) (byte_of k z h')
          (newest k z h' a)))

  pub best-IsParent :
      (i : ℕ) (x : Candidate) (b : Eligible)
      → best_from es none es ≡ some b
      → b.index ≡ i
      → entry entries i ≡ some x
      → IsParent policy entries i x
  best-IsParent i x b best at listed = record {
    listed = listed;
    admissible = subst (IsAdmissible policy i) same (rw index at adm);
    newest = λ j y h a.
        not_older_lem x.network.update_id y.network.update_id (byte_of i x listed) (byte_of j y h) (
          subst (λ u. sub8 u y.network.update_id < 128) update
            (dominates_elim b.update es (eligible_at policy j y) newest (among j y h a)));
    cheapest = λ j y h a newer.
        subst (λ c. c ≤ policy.link_cost j) cost
          (all_any (λ e. dominates e.update es ≡ true → b.cost ≤ e.cost) es (eligible_at policy j y)
            least_cost (among j y h a) (dominates_all j y h newer));
  }
    where
      found : (none ≡ some b) ⊎ AnyOf b es → AnyOf b es
      found (inl z) = absurd cc
      found (inr m) = m

      whole :
          (k : ℕ) × ((y : Candidate) × ((b ≡ eligible_at policy k y)
              × (entry entries k ≡ some y)
              × IsAdmissible policy k y))
      whole = standing b (found (best_from-AnyOf es none es b best))

      k : ℕ
      k = whole.0

      y : Candidate
      y = whole.1.0

      q : b ≡ eligible_at policy k y
      q = whole.1.1.0

      adm : IsAdmissible policy k y
      adm = whole.1.1.2

      index : k ≡ i
      index = sym (ap (λ z. z.index) q) ∙ at

      of_some : Option Candidate → Candidate
      of_some none = x
      of_some (some z) = z

      same : y ≡ x
      same = ap of_some (subst (λ n. some y ≡ entry entries n) index (sym whole.1.1.1) ∙ listed)

      update : b.update ≡ x.network.update_id
      update = ap (λ z. z.update) q ∙ ap (λ z. z.network.update_id) same

      cost : b.cost ≡ policy.link_cost i
      cost = ap (λ z. z.cost) q ∙ ap policy.link_cost index

      newest : dominates b.update es ≡ true
      newest = best_from-dominates es none es b (λ c z. absurd cc) best

      least_cost : AllOf (λ e. dominates e.update es ≡ true → b.cost ≤ e.cost) es
      least_cost = (best_from_least es none es b best).1

-- The update id `u` is 1 to 128 steps on from `v`: newer, or opposite.
abbrev pub IsAhead : ℕ → ℕ → Type 0
IsAhead u v = (d : ℕ) × ((1 ≤ d) × (d ≤ 128) × (u ≡ (v + d) % 256))

pub ahead_lem : (u v : ℕ) → u < 2 ^ 8 → v < 2 ^ 8 → 128 ≤ sub8 u v → IsAhead v u
ahead_lem u v h h' le = (sub8 v u, (omega arith, omega arith, omega arith))

-- Why no parent is chosen: a candidate that is offered has an update id opposite to the minimum, or
-- there are admissible ones, and to each another is newer or opposite.
pub data IsAmbiguous (policy : Policy) (entries : List Candidate) : Type 0 where
  to_minimum :
      (k : ℕ) (y : Candidate)
      → entry entries k ≡ some y
      → IsOpposite policy k y
      → IsAmbiguous policy entries
  among_them :
      (k : ℕ) (y : Candidate)
      → entry entries k ≡ some y
      → IsAdmissible policy k y
      → ((j : ℕ) (z : Candidate)
          → entry entries j ≡ some z
          → IsAdmissible policy j z
          → (n : ℕ) × ((w : Candidate) × ((entry entries n ≡ some w)
                × IsAdmissible policy n w
                × IsAhead w.network.update_id z.network.update_id)))
      → IsAmbiguous policy entries
