-- ===== src/NwkParent/Tables.antt =====
-- What the loop of nwk_candidates_consider in src/nwk_candidates.c makes of the entries.
use cc2530_zigbee.Base.{
  ◌≤◌, ◌≡◌, ◌≢◌, refl, sym, ap, subst, ◌∙◌, Bool, true, false, if◌then◌else◌, Option, none, some,
  List, [], ◌∷◌, length, arith, Bool-cases, inl, inr,
}
use cc2530_zigbee.NwkParent.{Candidate, Candidates, TableResult, updated, withdrawn, full}
use cc2530_zigbee.NwkParent.Consider.{same_identity, is_eligible, behind, replace}
use cc2530_zigbee.NwkParent.Identity.{
  find, find_same, Distinct, AllEligible, entered, others, same_identity_sym, same_identity_left,
}

-- What the loop makes of the entries where it finds the candidate's identity.
pub record Replaced (t : Candidates) (x : Candidate) (es : List Candidate) (r : TableResult)
    (fs : List Candidate) : Type 0 where
  pub not_full : r ≢ full
  pub finds : (k : Candidate) → find k fs ≡ entered x (is_eligible t x) es k
  pub distinct : Distinct fs
  pub eligible : AllEligible t fs
  pub no_longer : length fs ≤ length es

behind-none :
    (e : Candidate) (m : Option (TableResult × List Candidate)) → behind e m ≡ none → m ≡ none
unfolding behind
behind-none e none h = refl
behind-none e (some (r, es)) h = absurd (cc)

behind-some :
    (e : Candidate) (m : Option (TableResult × List Candidate)) (r : TableResult)
    (fs : List Candidate)
    → behind e m ≡ some (r, fs)
    → (gs : List Candidate) × ((m ≡ some (r, gs)) × (fs ≡ e ∷ gs))
unfolding behind
behind-some e none r fs h = absurd (cc)
behind-some e (some (q, gs)) r fs h = (gs, (cc, cc))

never_none :
    (el : Bool) (y z : TableResult × List Candidate) → (if el then some y else some z) ≢ none
never_none true y z h = absurd (cc)
never_none false y z h = absurd (cc)

pub replace_none :
    (x : Candidate) (el : Bool) (es : List Candidate) → replace x el es ≡ none → find x es ≡ none
unfolding replace find
replace_none x el [] h = refl
replace_none x el (e ∷ es) h = elim (Bool-cases (same_identity e x)) [
  | inl same ↦ absurd (never_none el (updated, x ∷ es) (withdrawn, es) (rw same at h))
  | inr other ↦
      let rest : behind e (replace x el es) ≡ none = rw other at h in
      rw other (replace_none x el es (behind-none e (replace x el es) rest))
]

module _ (t : Candidates) (x e : Candidate) (es : List Candidate) (d : Distinct (e ∷ es))
    (a : AllEligible t (e ∷ es)) where
  replaced_updated :
      same_identity e x ≡ true → is_eligible t x ≡ true → Replaced t x (e ∷ es) updated (x ∷ es)
  unfolding find
  replaced_updated same el = record {
    not_full = λ q. cc;
    finds = found;
    distinct = (sym (find_same e x es same) ∙ d.0, d.1);
    eligible = (el, a.1);
    no_longer = omega arith;
  }
    where
      found : (k : Candidate) → find k (x ∷ es) ≡ entered x (is_eligible t x) (e ∷ es) k
      found k = elim (Bool-cases (same_identity x k)) [
        | inl q ↦ rw (el, q) refl
        | inr q ↦ rw (el, same_identity_left e x k same, q) refl
      ]

  replaced_withdrawn :
      same_identity e x ≡ true → is_eligible t x ≡ false → Replaced t x (e ∷ es) withdrawn es
  unfolding find
  replaced_withdrawn same el = record {
    not_full = λ q. cc;
    finds = found;
    distinct = d.1;
    eligible = a.1;
    no_longer = omega arith;
  }
    where
      found : (k : Candidate) → find k es ≡ entered x (is_eligible t x) (e ∷ es) k
      found k = elim (Bool-cases (same_identity x k)) [
        | inl q ↦ rw (el, q) (sym (find_same x k es q) ∙ sym (find_same e x es same) ∙ d.0)
        | inr q ↦ rw (el, same_identity_left e x k same, q) refl
      ]

  replaced_behind :
      (r : TableResult) (gs : List Candidate)
      → same_identity e x ≡ false
      → Replaced t x es r gs
      → Replaced t x (e ∷ es) r (e ∷ gs)
  unfolding find
  replaced_behind r gs other g = record {
    not_full = g.not_full;
    finds = found;
    distinct = (g.finds e ∙ rw (same_identity_sym x e, other) d.0, g.distinct);
    eligible = (a.0, g.eligible);
    no_longer = omega (arith, g.no_longer);
  }
    where
      found : (k : Candidate) → find k (e ∷ gs) ≡ entered x (is_eligible t x) (e ∷ es) k
      found k = elim (Bool-cases (same_identity x k)) [
        | inl q ↦ rw (g.finds k, others e x k other q, q) refl
        | inr q ↦ rw (g.finds k, q) refl
      ]

value_of :
    TableResult × List Candidate
    → Option (TableResult × List Candidate)
    → TableResult × List Candidate
value_of z none = z
value_of z (some y) = y

as_stored :
    (t : Candidates) (x : Candidate) (es : List Candidate) (y z : TableResult × List Candidate)
    → some y ≡ some z
    → Replaced t x es y.0 y.1
    → Replaced t x es z.0 z.1
unfolding value_of
as_stored t x es y z h g = subst (λ w. Replaced t x es w.0 w.1) (ap (value_of y) h) g

pub replace_some :
    (t : Candidates) (x : Candidate) (es : List Candidate) (r : TableResult) (fs : List Candidate)
    → Distinct es
    → AllEligible t es
    → replace x (is_eligible t x) es ≡ some (r, fs)
    → Replaced t x es r fs
unfolding replace
replace_some t x [] r fs d a h = absurd (cc)
replace_some t x (e ∷ es) r fs d a h = elim (Bool-cases (same_identity e x)) [
  | inl same ↦ elim (Bool-cases (is_eligible t x)) [
    | inl el ↦
        as_stored t x (e ∷ es) (updated, x ∷ es) (r, fs) (rw (same, el) at h)
          (replaced_updated t x e es d a same el)
    | inr el ↦
        as_stored t x (e ∷ es) (withdrawn, es) (r, fs) (rw (same, el) at h)
          (replaced_withdrawn t x e es d a same el)
  ]
  | inr other ↦
      let rest : behind e (replace x (is_eligible t x) es) ≡ some (r, fs) = rw other at h in
      let (gs, (inner, whole)) = behind-some e (replace x (is_eligible t x) es) r fs rest in
      rw whole (replaced_behind t x e es d a r gs other (replace_some t x es r gs d.1 a.1 inner))
]
