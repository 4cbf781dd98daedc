-- ===== src/NvRecord/Outcome.antt =====
-- What a write of the page that is not selected does to the record of src/nv_record.c.
use cc2530_zigbee.Base.{
  ℕ, suc, ◌+◌, ◌≡◌, ◌≢◌, refl, sym, ap, ◌∙◌, Bool, true, false, ◌||◌, if◌then◌else◌, none, List, [],
  ◌∷◌, length, take, drop, get_or, arith, Bool-cases, inl, inr, drop-drop, length-drop, drop_all,
  drop-cons,
}
use cc2530_zigbee.NvRecord.{
  Result, ok, recovered, empty, PageState, is_ok, is_recovered, is_valid, is_empty, is_unsupported,
}
use cc2530_zigbee.NvRecord.Flash.{commit_word}
use cc2530_zigbee.NvRecord.Scan.{differs, magic_word, page_state}
use cc2530_zigbee.NvRecord.View.{view, all_erased}
use cc2530_zigbee.NvRecord.Read.{seen, state_of, generation_of}
use cc2530_zigbee.NvRecord.Load.{other}
use cc2530_zigbee.NvRecord.Record.{choose, newest, chosen, record_of}
use cc2530_zigbee.NvRecord.Selection.{chosen_valid}
use cc2530_zigbee.NvRecord.Loading.{record_of_taken, record_of_empty}

-- A page that the selection passes over.
abbrev pub IsDead : List ℕ → Type 0
IsDead xs = (is_valid (state_of xs) ≡ false) × (is_unsupported (state_of xs) ≡ false)

-- Does the selection take the page, or stop at it?
unfoldable pub passes : List ℕ → Bool
passes xs = is_valid (state_of xs) || is_unsupported (state_of xs)

-- Words that do not differ are the same.
pub same_word :
    (ws xs : List ℕ) (i : ℕ) → length xs ≡ i + length ws → differs xs i ws ≡ false → drop i xs ≡ ws
unfolding differs
same_word [] xs i h d = drop_all i xs (omega arith)
same_word (w ∷ ws) xs i h d =
    let first : get_or xs i 0 ≡ w = ground arith in
    rw (drop-cons i xs 0 (omega arith), first)
      (ap (λ t. w ∷ t) (same_word ws xs (suc i) (omega arith) (ground arith)))

-- Without the magic word in its first four bytes a page is dead.
pub headless-IsDead : (xs : List ℕ) → differs (take 12 xs) 0 magic_word ≡ true → IsDead xs
unfolding state_of seen view page_state
headless-IsDead xs h = elim (Bool-cases (all_erased xs)) [
  | inl e ↦ rw e (refl, refl)
  | inr e ↦ elim (Bool-cases (differs (drop 2040 xs) 4 commit_word)) [
    | inl d ↦ rw (e, d) (refl, refl)
    | inr d ↦ rw (e, d, h) (refl, refl)
  ]
]

-- Without the commit word in its last four bytes a page is dead.
pub uncommitted-IsDead : (xs : List ℕ) → length xs ≡ 2048 → drop 2044 xs ≢ commit_word → IsDead xs
unfolding state_of seen view page_state
uncommitted-IsDead xs size h = elim (Bool-cases (differs (drop 2040 xs) 4 commit_word)) [
  | inl d ↦ elim (Bool-cases (all_erased xs)) [
    | inl e ↦ rw e (refl, refl)
    | inr e ↦ rw (e, d) (refl, refl)
  ]
  | inr d ↦
      let eight : length (drop 2040 xs) ≡ 8 = omega (arith, length-drop 2040 xs) in
      absurd (
        h (
          sym (drop-drop 2044 2040 4 xs (omega arith))
          ∙ same_word commit_word (drop 2040 xs) 4 eight d))
]

-- One valid page beside a dead one.
choose_left :
    (s0 s1 : PageState) (g0 g1 : ℕ)
    → is_valid s0 ≡ true
    → is_valid s1 ≡ false
    → is_unsupported s1 ≡ false
    → choose s0 s1 g0 g1 ≡ (if is_empty s1 then ok else recovered, 0)
unfolding choose newest
choose_left s0 s1 g0 g1 v d u = ground arith

choose_right :
    (s0 s1 : PageState) (g0 g1 : ℕ)
    → is_valid s1 ≡ true
    → is_valid s0 ≡ false
    → is_unsupported s0 ≡ false
    → choose s0 s1 g0 g1 ≡ (if is_empty s0 then ok else recovered, 1)
unfolding choose newest
choose_right s0 s1 g0 g1 v d u = ground arith

taken_either :
    (b : Bool)
    → (is_ok (if b then ok else recovered) || is_recovered (if b then ok else recovered)) ≡ true
taken_either true = refl
taken_either false = refl

-- Without a record, page 1 is erased.
empty_right : (page : ℕ → List ℕ) → (chosen page).0 ≡ empty → is_empty (state_of (page 1)) ≡ true
unfolding chosen choose newest
empty_right page q = ground arith

empty_passes :
    (s : PageState) → is_empty s ≡ true → (is_valid s ≡ false) × (is_unsupported s ≡ false)
empty_passes s e = (ground arith, ground arith)

-- Two valid pages, one generation apart.
choose_newer0 :
    (s0 s1 : PageState) (g : ℕ)
    → is_valid s0 ≡ true
    → is_valid s1 ≡ true
    → choose s0 s1 (g + 1) g ≡ (ok, 0)
unfolding choose newest
choose_newer0 s0 s1 g v v' = ground arith

choose_newer1 :
    (s0 s1 : PageState) (g : ℕ)
    → is_valid s0 ≡ true
    → is_valid s1 ≡ true
    → choose s0 s1 g (g + 1) ≡ (ok, 1)
unfolding choose newest
choose_newer1 s0 s1 g v v' = ground arith

module _ (page page' : ℕ → List ℕ) where
  -- The page `i` is the choice, and the other page becomes dead: the record stays.
  pub dead_record :
      (r : Result) (i : ℕ)
      → chosen page ≡ (r, i)
      → (is_ok r || is_recovered r) ≡ true
      → page' i ≡ page i
      → IsDead (page' (other i))
      → record_of page' ≡ record_of page
  unfolding chosen
  dead_record r i q t same dead = elim (chosen_valid page (rw q t)) [
    | inl (e, v) ↦
        let z : i ≡ 0 = sym (ap (λ z. z.1) q) ∙ e in
        let same' : page' 0 ≡ page 0 = rw z at same in
        let dead' : IsDead (page' 1) = rw z at dead in
        let left =
          choose_left (state_of (page' 0)) (state_of (page' 1)) (generation_of (page' 0))
            (generation_of (page' 1)) (rw same' v) dead'.0 dead'.1 in
        record_of_taken page' _ 0 left (taken_either _)
        ∙ (rw same' (sym (record_of_taken page r 0 (q ∙ ap (λ k. (r, k)) z) t)))
    | inr (e, v) ↦
        let z : i ≡ 1 = sym (ap (λ z. z.1) q) ∙ e in
        let same' : page' 1 ≡ page 1 = rw z at same in
        let dead' : IsDead (page' 0) = rw z at dead in
        let right =
          choose_right (state_of (page' 0)) (state_of (page' 1)) (generation_of (page' 0))
            (generation_of (page' 1)) (rw same' v) dead'.0 dead'.1 in
        record_of_taken page' _ 1 right (taken_either _)
        ∙ (rw same' (sym (record_of_taken page r 1 (q ∙ ap (λ k. (r, k)) z) t)))
  ]

  none_left :
      is_empty (state_of (page 1)) ≡ true
      → page' 1 ≡ page 1
      → IsDead (page' 0)
      → record_of page' ≡ none
  unfolding record_of chosen choose newest
  none_left e same dead =
      let passes = empty_passes (state_of (page 1)) e in
      elim (Bool-cases (is_empty (state_of (page' 0)))) [
        | inl z ↦ rw (same, passes.0, passes.1, dead.0, dead.1, z, e) refl
        | inr z ↦ rw (same, passes.0, passes.1, dead.0, dead.1, z) refl
      ]

  -- There is no record, and page 0 becomes dead: there is none.
  pub dead_empty :
      (chosen page).0 ≡ empty
      → page' 1 ≡ page 1
      → IsDead (page' 0)
      → record_of page' ≡ record_of page
  dead_empty q same dead = none_left (empty_right page q) same dead ∙ sym (record_of_empty page q)

  -- The choice is the page `i`, and the other page becomes one with the next generation.
  pub new_chosen :
      (r : Result) (i : ℕ)
      → chosen page ≡ (r, i)
      → (is_ok r || is_recovered r) ≡ true
      → page' i ≡ page i
      → is_valid (state_of (page' (other i))) ≡ true
      → generation_of (page' (other i)) ≡ generation_of (page i) + 1
      → chosen page' ≡ (ok, other i)
  unfolding chosen
  new_chosen r i q t same v g = elim (chosen_valid page (rw q t)) [
    | inl (e, v') ↦
        let z : i ≡ 0 = sym (ap (λ z. z.1) q) ∙ e in
        let same' : page' 0 ≡ page 0 = rw z at same in
        let new' : is_valid (state_of (page' 1)) ≡ true = rw z at v in
        let gen' : generation_of (page' 1) ≡ generation_of (page 0) + 1 = rw z at g in
        rw (z, same', gen')
          (choose_newer1 (state_of (page 0)) (state_of (page' 1)) (generation_of (page 0)) v' new')
    | inr (e, v') ↦
        let z : i ≡ 1 = sym (ap (λ z. z.1) q) ∙ e in
        let same' : page' 1 ≡ page 1 = rw z at same in
        let new' : is_valid (state_of (page' 0)) ≡ true = rw z at v in
        let gen' : generation_of (page' 0) ≡ generation_of (page 1) + 1 = rw z at g in
        rw (z, same', gen')
          (choose_newer0 (state_of (page' 0)) (state_of (page 1)) (generation_of (page 1)) new' v')
  ]

  -- There is no record, and page 0 becomes valid.
  pub first_chosen :
      (chosen page).0 ≡ empty
      → page' 1 ≡ page 1
      → is_valid (state_of (page' 0)) ≡ true
      → chosen page' ≡ (ok, 0)
  unfolding chosen
  first_chosen q same v =
      let e = empty_right page q in
      let passes = empty_passes (state_of (page 1)) e in
      rw same (
        choose_left (state_of (page' 0)) (state_of (page 1)) (generation_of (page' 0))
          (generation_of (page 1)) v passes.0 passes.1
        ∙ (rw e refl))
