-- ===== src/NwkParent/Identity.antt =====
-- The table of src/nwk_candidates.c as a map from identities to candidates.
use cc2530_zigbee.Base.{
  ℕ, ◌≡◌, ◌↔◌, refl, sym, ◌∙◌, Bool, true, false, if◌then◌else◌, Option, none, some, List, [], ◌∷◌,
  ◌++◌, arith, Bool-cases, inl, inr,
}
use cc2530_zigbee.NwkParent.{Candidate, Candidates, same_bytes}
use cc2530_zigbee.NwkParent.Consider.{same_identity, is_eligible}

-- The fields by which two candidates are the same.
abbrev Identity : Type 0
Identity = ℕ × ℕ × ℕ × List ℕ × List ℕ

abbrev identity : Candidate → Identity
identity a = (a.channel, a.pan_id, a.address_mode, a.coordinator, a.network.extended_pan_id)

same_bytes_iff : (a b : List ℕ) → (same_bytes a b ≡ true) ↔ (a ≡ b)
unfolding same_bytes
same_bytes_iff [] [] = (λ _. refl, λ _. refl)
same_bytes_iff [] (y ∷ ys) = (λ h. absurd (cc), λ h. absurd (cc))
same_bytes_iff (x ∷ xs) [] = (λ h. absurd (cc), λ h. absurd (cc))
same_bytes_iff (x ∷ xs) (y ∷ ys) = ground (arith, same_bytes_iff xs ys)

same_identity_iff : (a b : Candidate) → (same_identity a b ≡ true) ↔ (identity a ≡ identity b)
unfolding same_identity
same_identity_iff a b = ground (
  arith,
  same_bytes_iff a.coordinator b.coordinator,
  same_bytes_iff a.network.extended_pan_id b.network.extended_pan_id,
)

Bool_ext : (a b : Bool) → (a ≡ true → b ≡ true) → (b ≡ true → a ≡ true) → a ≡ b
Bool_ext true b f g = sym (f refl)
Bool_ext false true f g = g refl
Bool_ext false false f g = refl

pub same_identity_sym : (a b : Candidate) → same_identity a b ≡ same_identity b a
same_identity_sym a b =
    Bool_ext _ _ (λ h. (same_identity_iff b a).1 (sym ((same_identity_iff a b).0 h)))
      (λ h. (same_identity_iff a b).1 (sym ((same_identity_iff b a).0 h)))

-- One of two candidates that are the same stands for the other.
pub same_identity_left :
    (a b c : Candidate) → same_identity a b ≡ true → same_identity a c ≡ same_identity b c
same_identity_left a b c h =
    let e = (same_identity_iff a b).0 h in
    Bool_ext _ _ (λ k. (same_identity_iff b c).1 (sym e ∙ (same_identity_iff a c).0 k))
      (λ k. (same_identity_iff a c).1 (e ∙ (same_identity_iff b c).0 k))

-- The entry with the identity of `k`.
unfoldable pub find : Candidate → List Candidate → Option Candidate
find k [] = none
find k (e ∷ es) = if same_identity e k then some e else find k es

pub find_same :
    (a b : Candidate) (es : List Candidate) → same_identity a b ≡ true → find a es ≡ find b es
unfolding find
find_same a b [] h = refl
find_same a b (e ∷ es) h =
    let turned : same_identity e a ≡ same_identity e b =
      same_identity_sym e a ∙ same_identity_left a b e h ∙ same_identity_sym b e in
    rw (turned, find_same a b es h) refl

-- No two entries are the same.
abbrev pub Distinct : List Candidate → Type 0
Distinct [] = Unit {0}
Distinct (e ∷ es) = (find e es ≡ none) × Distinct es

-- Every entry is eligible for the table `t`.
abbrev pub AllEligible : Candidates → List Candidate → Type 0
AllEligible t [] = Unit {0}
AllEligible t (e ∷ es) = (is_eligible t e ≡ true) × AllEligible t es

-- What is found for `k` once `x` has been entered.
abbrev pub entered : Candidate → Bool → List Candidate → Candidate → Option Candidate
entered x eligible es k =
    if same_identity x k then (if eligible then some x else none) else find k es

-- Candidates that are the same as a third are the same.
pub others :
    (e x k : Candidate)
    → same_identity e x ≡ false
    → same_identity x k ≡ true
    → same_identity e k ≡ false
others e x k other q =
    same_identity_sym e k ∙ sym (same_identity_left x k e q) ∙ same_identity_sym x e ∙ other

pub find-append :
    (k x : Candidate) (es : List Candidate)
    → find x es ≡ none
    → find k (es ++ x ∷ []) ≡ entered x true es k
unfolding find
find-append k x [] h = refl
find-append k x (e ∷ es) h = elim (Bool-cases (same_identity e x)) [
  | inl same ↦ let no_entry : some e ≡ none = rw same at h in absurd (cc)
  | inr other ↦
      let h' : find x es ≡ none = rw other at h in
      elim (Bool-cases (same_identity x k)) [
        | inl q ↦ rw (find-append k x es h', others e x k other q, q) refl
        | inr q ↦ rw (find-append k x es h', q) refl
      ]
]

pub Distinct-append :
    (x : Candidate) (es : List Candidate) → find x es ≡ none → Distinct es → Distinct (es ++ x ∷ [])
unfolding find
Distinct-append x [] h d = (refl, tt)
Distinct-append x (e ∷ es) h d = elim (Bool-cases (same_identity e x)) [
  | inl same ↦ let no_entry : some e ≡ none = rw same at h in absurd (cc)
  | inr other ↦
      let h' : find x es ≡ none = rw other at h in
      (find-append e x es h' ∙ rw (same_identity_sym x e, other) d.0, Distinct-append x es h' d.1)
]

pub AllEligible-append :
    (t : Candidates) (x : Candidate) (es : List Candidate)
    → is_eligible t x ≡ true
    → AllEligible t es
    → AllEligible t (es ++ x ∷ [])
AllEligible-append t x [] h a = (h, tt)
AllEligible-append t x (e ∷ es) h a = (a.0, AllEligible-append t x es h a.1)
