-- ===== src/NwkParent/Choice.antt =====
-- The parent that `nwk_parent_select` of src/nwk_parent.c chooses.
use cc2530_zigbee.Base.{
  ℕ, ◌-◌, ◌≤◌, ◌<◌, ◌≡◌, ◌≢◌, ◌⊎◌, refl, ap, subst, ◌∙◌, Bool, true, false, ◌||◌, not, ltb, ◌==◌,
  ◌!=◌, bit_and, ◌^◌, if◌then◌else◌, Option, none, some, List, [], ◌∷◌, length, inl, inr, arith,
  Bool-cases, sub8,
}
use cc2530_zigbee.NwkBeacon.{any_of, all_of}
use cc2530_zigbee.NwkParent.{
  Candidate, Candidates, TableResult, table_ok, table_invalid, bad_index, copy, get, is_readable,
  costs_valid, Result, ok, ambiguous_update, invalid_table, invalid_argument, Policy, Eligible,
  eligible_from, dominates, best_from, choose_best, choose, select, entry, valid_table,
}
use cc2530_zigbee.NwkParent.Best.{AllOf, best_from-none}
use cc2530_zigbee.NwkParent.Eligibility.{AreBytes, eligible_at, At-entry}
use cc2530_zigbee.NwkParent.Newest.{
  IsParent, IsAmbiguous, to_minimum, among_them, all_any, dominated, byte_of, among, standing,
  best-IsParent, ahead_lem,
}
use cc2530_zigbee.NwkParent.Collected.{eligible_from-IsOpposite}

unguarded :
    (c : Bool) (r : Result) (rest z : Result × Option (ℕ × Candidate))
    → r ≢ z.0
    → (if c then (r, none) else rest) ≡ z
    → rest ≡ z
unguarded true r rest z ne h = absurd (ne (ap (λ o. o.0) h))
unguarded false r rest z ne h = h

-- A result that no guard answers comes from the choice.
reached :
    (t : Candidates) (policy : Policy) (z : Result × Option (ℕ × Candidate))
    → invalid_argument ≢ z.0
    → invalid_table ≢ z.0
    → select t policy ≡ z
    → choose t (eligible_from policy 0 t.entries) ≡ z
unfolding select
reached t policy z ne ne' h = unguarded c5 invalid_argument r5 z ne (
    unguarded c4 invalid_argument r4 z ne (
      unguarded c3 invalid_table r3 z ne'
        (unguarded c2 invalid_argument r2 z ne (unguarded c1 invalid_argument r1 z ne h))))
  where
    Answer : Type 0
    Answer = Result × Option (ℕ × Candidate)

    c1 : Bool
    c1 = ltb 1 policy.minimum_known

    c2 : Bool
    c2 = any_of 0 policy.extended_pan_id == 0 || all_of 255 policy.extended_pan_id == 255

    c3 : Bool
    c3 = not (is_readable (get t 0).0)

    c4 : Bool
    c4 = bit_and policy.potential_mask (255 - (2 ^ length t.entries - 1)) != 0

    c5 : Bool
    c5 = not (costs_valid policy 0 t.entries)

    r5 : Answer
    r5 = choose t (eligible_from policy 0 t.entries)

    r4 : Answer
    r4 = if c5 then (invalid_argument, none) else r5

    r3 : Answer
    r3 = if c4 then (invalid_argument, none) else r4

    r2 : Answer
    r2 = if c3 then (invalid_table, none) else r3

    r1 : Answer
    r1 = if c2 then (invalid_argument, none) else r2

copied :
    (k i : ℕ) (x : Candidate) (g : TableResult × Option Candidate)
    → copy k g ≡ (ok, some (i, x))
    → (k ≡ i) × (g ≡ (table_ok, some x))
unfolding copy
copied k i x (table_ok, some y) h = (cc, cc)
copied k i x (table_ok, none) h = absurd cc
copied k i x (_, o) h = absurd (cc)

best_parent :
    (t : Candidates) (o : Option Eligible) (i : ℕ) (x : Candidate)
    → choose_best t o ≡ (ok, some (i, x))
    → (b : Eligible) × ((o ≡ some b) × (b.index ≡ i) × (get t b.index ≡ (table_ok, some x)))
unfolding choose_best
best_parent t none i x h = absurd cc
best_parent t (some b) i x h =
    let (at, fetched) = copied b.index i x (get t b.index) h in (b, (refl, at, fetched))

choose_parent :
    (t : Candidates) (o : Option (List Eligible)) (i : ℕ) (x : Candidate)
    → choose t o ≡ (ok, some (i, x))
    → (es : List Eligible) × ((b : Eligible) × ((o ≡ some es)
          × (best_from es none es ≡ some b)
          × (b.index ≡ i)
          × (get t b.index ≡ (table_ok, some x))))
unfolding choose
choose_parent t none i x h = absurd cc
choose_parent t (some []) i x h = absurd cc
choose_parent t (some (e ∷ es)) i x h =
    let (b, (q, at, fetched)) = best_parent t (best_from (e ∷ es) none (e ∷ es)) i x h in
    (e ∷ es, (b, (refl, q, at, fetched)))

entry_cases : (o : Option Candidate) → (o ≡ none) ⊎ ((y : Candidate) × (o ≡ some y))
entry_cases none = inl refl
entry_cases (some y) = inr (y, refl)

get-entry :
    (t : Candidates) (i : ℕ) (x : Candidate)
    → get t i ≡ (table_ok, some x)
    → entry t.entries i ≡ some x
unfolding get
get-entry t i x h = elim (Bool-cases (valid_table t)) [
  | inr v ↦ absurd (let clash : (table_invalid, none) ≡ (table_ok, some x) = rw v at h in cc)
  | inl v ↦ elim (entry_cases (entry t.entries i)) [
    | inl n ↦ absurd (let clash : (bad_index, none) ≡ (table_ok, some x) = rw (v, n) at h in cc)
    | inr (y, e) ↦
        let here : (table_ok, some y) ≡ (table_ok, some x) = rw (v, e) at h in
        e ∙ ap (λ o. o.1) here
  ]
]

-- In a table and a policy whose update ids are bytes, a parent that is chosen is the candidate at the
-- index that is answered. It is permitted, with a cost of at most 3, of the policy's network, and
-- where there is a minimum its update id is that or at most 127 steps on from it, modulo 256. So is
-- it from the update id of every candidate that meets these conditions, and none of those that have
-- this property as well costs less.
pub select-IsParent :
    (t : Candidates) (policy : Policy) (i : ℕ) (x : Candidate)
    → AreBytes t.entries
    → policy.minimum_update_id < 2 ^ 8
    → select t policy ≡ (ok, some (i, x))
    → IsParent policy t.entries i x
select-IsParent t policy i x bytes least h =
    let h5 = reached t policy (ok, some (i, x)) (λ e. absurd cc) (λ e. absurd cc) h in
    let (es, (b, (q, best, at, fetched))) =
      choose_parent t (eligible_from policy 0 t.entries) i x h5 in
    best-IsParent policy least t.entries bytes es q i x b best at
      (get-entry t i x (rw (← at) fetched))

not_ambiguous :
    (k : ℕ) (g : TableResult × Option Candidate) (o : Option (ℕ × Candidate))
    → copy k g ≢ (ambiguous_update, o)
unfolding copy
not_ambiguous k (table_ok, some y) o h = absurd cc
not_ambiguous k (table_ok, none) o h = absurd cc
not_ambiguous k (_, z) o h = absurd (cc)

no_best :
    (t : Candidates) (b : Option Eligible) (o : Option (ℕ × Candidate))
    → choose_best t b ≡ (ambiguous_update, o)
    → b ≡ none
unfolding choose_best
no_best t none o h = refl
no_best t (some b) o h = absurd (not_ambiguous b.index (get t b.index) o h)

choose_ambiguous :
    (t : Candidates) (l : Option (List Eligible)) (o : Option (ℕ × Candidate))
    → choose t l ≡ (ambiguous_update, o)
    → (l ≡ none)
      ⊎ ((e : Eligible) × ((es : List Eligible) × ((l ≡ some (e ∷ es))
              × AllOf (λ f. dominates f.update (e ∷ es) ≡ false) (e ∷ es))))
unfolding choose
choose_ambiguous t none o h = inl refl
choose_ambiguous t (some []) o h = absurd cc
choose_ambiguous t (some (e ∷ es)) o h = inr (
  e,
  (
    es,
    (
      refl,
      (best_from-none (e ∷ es) none (e ∷ es) (no_best t (best_from (e ∷ es) none (e ∷ es)) o h)).1,
    ),
  ),
)

-- In a table and a policy whose update ids are bytes, an ambiguous update is answered only when some
-- candidate that is permitted, with a cost of at most 3, and of the policy's network, is 128 steps on
-- from the policy's minimum, modulo 256; or when there are candidates that meet these conditions and
-- are not older than the minimum, and for each of them another is 1 to 128 steps on.
pub select-IsAmbiguous :
    (t : Candidates) (policy : Policy) (o : Option (ℕ × Candidate))
    → AreBytes t.entries
    → policy.minimum_update_id < 2 ^ 8
    → select t policy ≡ (ambiguous_update, o)
    → IsAmbiguous policy t.entries
select-IsAmbiguous t policy o bytes least h =
    elim (choose_ambiguous t (eligible_from policy 0 t.entries) o
      (reached t policy (ambiguous_update, o) (λ e. absurd cc) (λ e. absurd cc) h)) [
        | inl q ↦
            let (k, (y, (at, a))) = eligible_from-IsOpposite policy least 0 t.entries bytes q in
            let (j, (z, e)) = At-entry 0 k t.entries y at in
            let same : j ≡ k = omega arith in
            to_minimum k y (subst (λ n. entry t.entries n ≡ some y) same e) a
        | inr (e, (es, (q, all))) ↦
            let here = standing policy least t.entries bytes (e ∷ es) q in
            let byte = byte_of policy least t.entries bytes (e ∷ es) q in
            let (k, (y, (f, at, a))) = here e (inl refl) in
            among_them k y at a (λ j z at' a'.
              let own = among policy least t.entries bytes (e ∷ es) q j z at' a' in
              let beaten =
                all_any (λ g. dominates g.update (e ∷ es) ≡ false) (e ∷ es) (eligible_at policy j z)
                  all own in
              let (g, (m, le)) = dominated z.network.update_id (e ∷ es) beaten in
              let (n, (w, (f', at'', a''))) = here g m in
              let far : 128 ≤ sub8 z.network.update_id w.network.update_id =
                subst (λ c. 128 ≤ sub8 z.network.update_id c.update) f' le in
              (
                n,
                (
                  w,
                  (
                    at'',
                    a'',
                    ahead_lem z.network.update_id w.network.update_id (byte j z at') (byte n w at'')
                        far,
                  ),
                ),
              ))
      ]
