-- ===== src/NwkParent/Eligibility.antt =====
-- The loop of eligibility in `nwk_parent_select` of src/nwk_parent.c collects the candidates that
-- may be a parent, each with its index, its update id and its cost.
use cc2530_zigbee.Base.{
  ℕ, zero, suc, ◌+◌, ◌/◌, ◌%◌, ◌^◌, ◌≤◌, ◌<◌, ◌≡◌, ◌≢◌, ◌⊎◌, refl, sym, ap, Bool, true, false, ◌&&◌,
  ◌||◌, not, ltb, ◌==◌, ◌!=◌, none, some, List, [], ◌∷◌, arith, Bool-cases, inl, inr, sub8,
}
use cc2530_zigbee.NwkParent.{
  Candidate, Policy, Eligible, eligible_from, add, permits, same_bytes, delta_of, entry,
}

-- The update id `u` is `v`, or 1 to 127 steps on from it.
abbrev pub IsNotOlder : ℕ → ℕ → Type 0
IsNotOlder u v = (d : ℕ) × ((d < 128) × (u ≡ (v + d) % 256))

-- The candidate `x` at index `i` is one that the policy allows, at a low cost, and of its network.
pub record IsOffered (policy : Policy) (i : ℕ) (x : Candidate) : Type 0 where
  pub permitted : policy.potential_mask / 2 ^ i % 2 ≡ 1
  pub cheap : policy.link_cost i ≤ 3
  pub same_pan : x.network.extended_pan_id ≡ policy.extended_pan_id

-- It may also be a parent by its update id.
pub record IsAdmissible (policy : Policy) (i : ℕ) (x : Candidate) : Type 0 where
  pub offered : IsOffered policy i x
  pub not_older :
      (policy.minimum_known ≡ 0) ⊎ IsNotOlder x.network.update_id policy.minimum_update_id

-- The update id of `x` is as far from the policy's minimum as can be.
pub record IsOpposite (policy : Policy) (i : ℕ) (x : Candidate) : Type 0 where
  pub offered : IsOffered policy i x
  pub known : policy.minimum_known ≢ 0
  pub opposite : x.network.update_id ≡ (policy.minimum_update_id + 128) % 256

-- The update ids are bytes.
abbrev pub AreBytes : List Candidate → Type 0
AreBytes [] = Unit {0}
AreBytes (x ∷ xs) = (x.network.update_id < 2 ^ 8) × AreBytes xs

-- `x` is the candidate of index `k` in the list, of which the first has index `i`.
abbrev pub At : ℕ → List Candidate → ℕ → Candidate → Type 0
At i [] k x = k ≢ k
At i (y ∷ ys) k x = ((k ≡ i) × (x ≡ y)) ⊎ At (suc i) ys k x

abbrev pub eligible_at : Policy → ℕ → Candidate → Eligible
eligible_at policy i x = record {
  index = i;
  update = x.network.update_id;
  cost = policy.link_cost i;
}

pub entry-At :
    (i j : ℕ) (xs : List Candidate) (x : Candidate) → entry xs j ≡ some x → At i xs (i + j) x
unfolding entry
entry-At i j [] x h = absurd cc
entry-At i zero (y ∷ ys) x h = inl (omega arith, cc)
entry-At i (suc j) (y ∷ ys) x h =
    let e : i + suc j ≡ suc i + j = omega arith in inr (rw e (entry-At (suc i) j ys x h))

pub At-entry :
    (i k : ℕ) (xs : List Candidate) (x : Candidate)
    → At i xs k x
    → (j : ℕ) × ((k ≡ i + j) × (entry xs j ≡ some x))
unfolding entry
At-entry i k [] x h = absurd (h refl)
At-entry i k (y ∷ ys) x (inl (e, f)) = (0, (omega arith, ap some (sym f)))
At-entry i k (y ∷ ys) x (inr h) =
    let (j, (e, f)) = At-entry (suc i) k ys x h in (suc j, (omega arith, f))

same_bytes_elim : (xs ys : List ℕ) → same_bytes xs ys ≡ true → xs ≡ ys
unfolding same_bytes
same_bytes_elim [] [] h = refl
same_bytes_elim [] (y ∷ ys) h = absurd cc
same_bytes_elim (x ∷ xs) [] h = absurd cc
same_bytes_elim (x ∷ xs) (y ∷ ys) h =
    let head : x ≡ y = ground arith in rw (head, same_bytes_elim xs ys (ground arith)) refl

same_bytes_self : (xs : List ℕ) → same_bytes xs xs ≡ true
unfolding same_bytes
same_bytes_self [] = refl
same_bytes_self (x ∷ xs) = let e : (x == x) ≡ true = ground arith in rw (e, same_bytes_self xs) refl

-- What the tests of a round say of update ids.
pub not_older_lem : (u v : ℕ) → u < 2 ^ 8 → v < 2 ^ 8 → sub8 u v < 128 → IsNotOlder u v
not_older_lem u v h h' lt = (sub8 u v, (lt, omega arith))

pub not_older_elim : (u v : ℕ) → u < 2 ^ 8 → v < 2 ^ 8 → IsNotOlder u v → sub8 u v < 128
not_older_elim u v h h' (d, (lt, e)) = omega arith

older_refused :
    (k u v : ℕ)
    → u < 2 ^ 8
    → v < 2 ^ 8
    → (k ≡ 0) ⊎ IsNotOlder u v
    → (k != 0 && ltb 128 (sub8 u v)) ≡ false
older_refused k u v h h' (inl z) = ground arith
older_refused k u v h h' (inr n) = let lt = not_older_elim u v h h' n in ground arith

newer_accepted :
    (k u v : ℕ)
    → u < 2 ^ 8
    → v < 2 ^ 8
    → (k != 0 && sub8 u v == 128) ≡ false
    → (k != 0 && ltb 128 (sub8 u v)) ≡ false
    → (k ≡ 0) ⊎ IsNotOlder u v
newer_accepted k u v h h' c3 c4 = elim (Bool-cases (k == 0)) [
  | inl z ↦ inl (ground arith)
  | inr z ↦ inr (not_older_lem u v h h' (ground arith))
]

opposite_lem : (u v : ℕ) → u < 2 ^ 8 → v < 2 ^ 8 → sub8 u v ≡ 128 → u ≡ (v + 128) % 256
opposite_lem u v h h' e = omega arith

offered_lem :
    (policy : Policy) (i : ℕ) (x : Candidate)
    → (not (permits policy.potential_mask i) || ltb 3 (policy.link_cost i)) ≡ false
    → not (same_bytes x.network.extended_pan_id policy.extended_pan_id) ≡ false
    → IsOffered policy i x
unfolding permits
offered_lem policy i x c1 c2 = record {
  permitted = ground arith;
  cheap = ground arith;
  same_pan = same_bytes_elim _ _ (ground arith);
}

offered_passes :
    (policy : Policy) (i : ℕ) (x : Candidate)
    → IsOffered policy i x
    → ((not (permits policy.potential_mask i) || ltb 3 (policy.link_cost i)) ≡ false)
      × (not (same_bytes x.network.extended_pan_id policy.extended_pan_id) ≡ false)
unfolding permits
offered_passes policy i x o =
    let bit = o.permitted in
    let low = o.cheap in
    (ground arith, rw (o.same_pan, same_bytes_self policy.extended_pan_id) refl)

module _ (policy : Policy) (least : policy.minimum_update_id < 2 ^ 8) where
  -- What a round does with the entries of the rounds after it.
  abbrev pub Round : ℕ → Candidate → List Candidate → Type 0
  Round i x xs =
      ((eligible_from policy i (x ∷ xs) ≡ eligible_from policy (suc i) xs)
        × (IsAdmissible policy i x → i ≢ i))
      ⊎ (((eligible_from policy i (x ∷ xs) ≡ none) × IsOpposite policy i x)
          ⊎ ((eligible_from policy i (x ∷ xs)
                ≡ add (eligible_at policy i x) (eligible_from policy (suc i) xs))
              × IsAdmissible policy i x))

  pub round_lem :
      (i : ℕ) (x : Candidate) (xs : List Candidate) → x.network.update_id < 2 ^ 8 → Round i x xs
  unfolding eligible_from delta_of
  round_lem i x xs byte = elim (Bool-cases c1) [
    | inl e1 ↦ inl (rw e1 refl, λ a. let z = (offered_passes policy i x a.offered).0 in absurd cc)
    | inr e1 ↦ elim (Bool-cases c2) [
      | inl e2 ↦
          inl (rw (e1, e2) refl, λ a. let z = (offered_passes policy i x a.offered).1 in absurd cc)
      | inr e2 ↦ elim (Bool-cases c3) [
        | inl e3 ↦ inr (
            inl (
              rw (e1, e2, e3) refl,
              record {
                offered = offered_lem policy i x e1 e2;
                known = λ z. absurd (ground arith);
                opposite = opposite_lem u v byte least (ground arith);
              },
            ))
        | inr e3 ↦ elim (Bool-cases c4) [
          | inl e4 ↦ inl (
            rw (e1, e2, e3, e4) refl,
            λ a. let z = older_refused policy.minimum_known u v byte least a.not_older in absurd cc,
          )
          | inr e4 ↦ inr (
              inr (
                rw (e1, e2, e3, e4) refl,
                record {
                  offered = offered_lem policy i x e1 e2;
                  not_older = newer_accepted policy.minimum_known u v byte least e3 e4;
                },
              ))
        ]
      ]
    ]
  ]
    where
      u : ℕ
      u = x.network.update_id

      v : ℕ
      v = policy.minimum_update_id

      c1 : Bool
      c1 = not (permits policy.potential_mask i) || ltb 3 (policy.link_cost i)

      c2 : Bool
      c2 = not (same_bytes x.network.extended_pan_id policy.extended_pan_id)

      c3 : Bool
      c3 = policy.minimum_known != 0 && sub8 u v == 128

      c4 : Bool
      c4 = policy.minimum_known != 0 && ltb 128 (sub8 u v)
