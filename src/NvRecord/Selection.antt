-- ===== src/NvRecord/Selection.antt =====
-- What `select_record` and `resume` of src/nv_record.c leave in the RAM, in terms of the pages.
use cc2530_zigbee.Base.{
  ℕ, ◌≡◌, ◌≢◌, ◌⊎◌, refl, sym, ap, subst, ◌∙◌, Bool, true, false, ◌||◌, if_intro, List, arith,
  Bool-cases, inl, inr,
}
use cc2530_zigbee.NvRecord.{
  Result, ok, recovered, empty, read_failed, Ram, is_ok, is_recovered, is_valid, begin, is_known,
  resume, finish, fault,
}
use cc2530_zigbee.NvRecord.Flash.{Flash}
use cc2530_zigbee.NvRecord.Scan.{scan_page}
use cc2530_zigbee.NvRecord.Read.{
  scanned, scan_page_ok, scan_page_failed, scan_page-page, state_of, generation_of, length_of,
}
use cc2530_zigbee.NvRecord.Load.{select_record, select_pages}
use cc2530_zigbee.NvRecord.Record.{choose, newest, chosen, settled, Reported, select_pages-chosen}

pub is_ok_elim : (r : Result) → is_ok r ≡ true → r ≡ ok
is_ok_elim r h = ground arith

pub is_recovered_elim : (r : Result) → is_recovered r ≡ true → r ≡ recovered
is_recovered_elim r h = ground arith

pub not_ok : (r : Result) → is_ok r ≡ false → r ≢ ok
not_ok r h e = ground arith

-- A choice that is taken is a valid page.
pub chosen_valid :
    (page : ℕ → List ℕ)
    → (is_ok (chosen page).0 || is_recovered (chosen page).0) ≡ true
    → (((chosen page).1 ≡ 0) × (is_valid (state_of (page 0)) ≡ true))
      ⊎ (((chosen page).1 ≡ 1) × (is_valid (state_of (page 1)) ≡ true))
unfolding chosen choose newest
chosen_valid page h = ground arith

-- The RAM after a selection with the result `r`.
pub record Chosen (page : ℕ → List ℕ) (r : Result) (m : Ram) : Type 0 where
  pub picked :
      (is_ok r || is_recovered r) ≡ true
      → (chosen page ≡ (r, m.selected))
        × (m.generation ≡ generation_of (page m.selected))
        × (m.record_length ≡ length_of (page m.selected))
  pub nothing : r ≡ empty → ((chosen page).0 ≡ empty) × (m.selected ≡ 255) × (m.generation ≡ 0)
  pub flagged : m.has_recovered ≡ is_recovered r
  pub first_phase : m.phase ≡ 1

-- The fields that a scan does not touch.
abbrev pub Kept : Ram → Ram → Type 0
Kept m m' =
    (m'.phase ≡ m.phase)
    × (m'.has_recovered ≡ m.has_recovered)
    × (m'.selected ≡ m.selected)
    × (m'.generation ≡ m.generation)
    × (m'.record_length ≡ m.record_length)

told_at :
    (page : ℕ → List ℕ) (m : Ram) (i : ℕ)
    → Reported page m
    → (i ≡ 0) ⊎ (i ≡ 1)
    → (m.generations i ≡ generation_of (page i)) × (m.lengths i ≡ length_of (page i))
told_at page m i told (inl z) = rw z (told.generations0, told.lengths0)
told_at page m i told (inr o) = rw o (told.generations1, told.lengths1)

-- From a RAM that reports the pages and a diagnostic that `begin` has cleared.
settled-Chosen :
    (page : ℕ → List ℕ) (r : Result) (i : ℕ) (m0 m : Ram)
    → chosen page ≡ (r, i)
    → ((is_ok r || is_recovered r) ≡ true → (i ≡ 0) ⊎ (i ≡ 1))
    → Reported page m
    → Kept (begin m0) m
    → Chosen page r (settled r i m)
unfolding settled begin
settled-Chosen page r i m0 m q low told (f, y, s, g, l) = elim (Bool-cases (is_ok r)) [
  | inl e ↦
      let at = told_at page m i told (low (rw e refl)) in
      rw e (record {
        picked = λ h. (q, at.0, at.1);
        nothing = λ h. absurd (ground arith);
        flagged = ground arith;
        first_phase = f;
      })
  | inr e ↦ elim (Bool-cases (is_recovered r)) [
    | inl e' ↦
        let at = told_at page m i told (low (rw (e, e') refl)) in
        rw (e, e')
          (record {
            picked = λ h. (q, at.0, at.1);
            nothing = λ h. absurd (ground arith);
            flagged = sym e';
            first_phase = f;
          })
    | inr e' ↦
        rw (e, e')
          (record {
            picked = λ h. absurd (ground arith);
            nothing = λ h. (ap (λ z. z.0) q ∙ h, s, g);
            flagged = y ∙ sym e';
            first_phase = f;
          })
  ]
]

Kept-trans : (m m' m'' : Ram) → Kept m m' → Kept m' m'' → Kept m m''
Kept-trans m m' m'' (f, y, s, g, l) (f', y', s', g', l') = (f' ∙ f, y' ∙ y, s' ∙ s, g' ∙ g, l' ∙ l)

pub pages_Chosen :
    (page : ℕ → List ℕ) (m0 m : Ram)
    → Reported page m
    → Kept (begin m0) m
    → Chosen page (select_pages m).0 (select_pages m).1
pages_Chosen page m0 m told kept = rw (select_pages-chosen page m told) (
    settled-Chosen page (chosen page).0 (chosen page).1 m0 m refl (λ h. low (chosen_valid page h))
      told kept)
  where
    low :
        (((chosen page).1 ≡ 0) × (is_valid (state_of (page 0)) ≡ true))
          ⊎ (((chosen page).1 ≡ 1) × (is_valid (state_of (page 1)) ≡ true))
        → ((chosen page).1 ≡ 0) ⊎ ((chosen page).1 ≡ 1)
    low (inl h) = inl h.0
    low (inr h) = inr h.0

failed_Chosen :
    (page : ℕ → List ℕ) (r : Result) (m0 m : Ram)
    → r ≡ read_failed
    → Kept (begin m0) m
    → Chosen page r m
unfolding begin
failed_Chosen page r m0 m e (f, y, s, g, l) = rw e (record {
  picked = λ h. absurd (ground arith);
  nothing = λ h. absurd cc;
  flagged = y;
  first_phase = f;
})

module _ (F : Flash) where
  abbrev pub image : F.Cells → ℕ → List ℕ
  image c = λ q. F.page q c

  pub scan_page-image :
      (p : ℕ) (capture : Bool) (m : Ram) (c : F.Cells)
      → image (scan_page F p capture m c).2 ≡ image c
  scan_page-image p capture m c = λ i q. scan_page-page F p capture m q c i

  pub scan_page-Kept :
      (p : ℕ) (capture : Bool) (m : Ram) (c : F.Cells) → Kept m (scan_page F p capture m c).1
  unfolding scan_page fault finish
  scan_page-Kept p capture m c =
      if_intro (λ (o : Result × Ram × F.Cells). Kept m o.1) _ _ _
        (λ _. (refl, refl, refl, refl, refl)) (λ _. (refl, refl, refl, refl, refl))

  -- Two scans that answer ok.
  pub both_Reported :
      (m : Ram) (c c1 : F.Cells)
      → image c1 ≡ image c
      → Reported (image c) (scanned F 1 false (scanned F 0 false m (F.page 0 c)) (F.page 1 c1))
        × Kept m (scanned F 1 false (scanned F 0 false m (F.page 0 c)) (F.page 1 c1))
  unfolding scanned
  both_Reported m c c1 same =
      let one : F.page 1 c1 ≡ F.page 1 c = λ i. same i 1 in
      rw one (
        record {
          states0 = refl;
          states1 = refl;
          generations0 = refl;
          generations1 = refl;
          lengths0 = refl;
          lengths1 = refl;
        },
        (refl, refl, refl, refl, refl),
      )

  -- What `select_record` finds from a cleared diagnostic.
  pub select_record-Chosen :
      (m : Ram) (c : F.Cells)
      → (image (select_record F (begin m) c).2 ≡ image c)
        × Chosen (image c) (select_record F (begin m) c).0 (select_record F (begin m) c).1
  unfolding select_record
  select_record-Chosen m c = elim (Bool-cases (is_ok r)) [
    | inr bad ↦ rw bad (
      same1,
      failed_Chosen (image c) r m m1 (scan_page_failed F 0 false (begin m) c (not_ok r bad)).0
          kept1,
    )
    | inl good ↦ elim (Bool-cases (is_ok r2)) [
      | inr bad2 ↦
          rw (good, bad2)
            (
              same2,
              failed_Chosen (image c) r2 m m2 (scan_page_failed F 1 false m1 c1 (not_ok r2 bad2)).0
                  (Kept-trans (begin m) m1 m2 kept1 (scan_page-Kept 1 false m1 c1)),
            )
      | inl good2 ↦
          let e1 : m1 ≡ scanned F 0 false (begin m) (F.page 0 c) =
            scan_page_ok F 0 false (begin m) c (is_ok_elim r good) in
          let e2 : m2 ≡ scanned F 1 false m1 (F.page 1 c1) =
            scan_page_ok F 1 false m1 c1 (is_ok_elim r2 good2) in
          let e : m2 ≡ scanned F 1 false (scanned F 0 false (begin m) (F.page 0 c)) (F.page 1 c1) =
            e2 ∙ ap (λ z. scanned F 1 false z (F.page 1 c1)) e1 in
          let both : Reported (image c) m2 × Kept (begin m) m2 =
            subst (λ z. Reported (image c) z × Kept (begin m) z) (sym e)
              (both_Reported (begin m) c c1 same1) in
          rw (good, good2) (same2, pages_Chosen (image c) m m2 both.0 both.1)
    ]
  ]
    where
      r : Result
      r = (scan_page F 0 false (begin m) c).0

      m1 : Ram
      m1 = (scan_page F 0 false (begin m) c).1

      c1 : F.Cells
      c1 = (scan_page F 0 false (begin m) c).2

      r2 : Result
      r2 = (scan_page F 1 false m1 c1).0

      m2 : Ram
      m2 = (scan_page F 1 false m1 c1).1

      c2 : F.Cells
      c2 = (scan_page F 1 false m1 c1).2

      same1 : image c1 ≡ image c
      same1 = scan_page-image 0 false (begin m) c

      same2 : image c2 ≡ image c
      same2 = scan_page-image 1 false m1 c1 ∙ same1

      kept1 : Kept (begin m) m1
      kept1 = scan_page-Kept 0 false (begin m) c

-- What the status says of the pages when `resume` relies on it.
abbrev pub IsSound : (ℕ → List ℕ) → Ram → Type 0
IsSound page m =
    is_known m ≡ true
    → (chosen page ≡ (ok, m.selected))
      × (m.generation ≡ generation_of (page m.selected))
      × (m.record_length ≡ length_of (page m.selected))

-- A known status stands in for a selection.
pub resume-Chosen :
    (page : ℕ → List ℕ) (m : Ram)
    → IsSound page m
    → (resume m).0 ≡ true
    → Chosen page ok (resume m).1
unfolding resume begin
resume-Chosen page m sound h = elim (Bool-cases (is_known m)) [
  | inl known ↦ rw known (record {
    picked = λ _. sound known;
    nothing = λ e. absurd cc;
    flagged = refl;
    first_phase = refl;
  })
  | inr fresh ↦ absurd (ground arith)
]

-- A status that is not known leaves what `begin` leaves.
pub resume-begin : (m : Ram) → (resume m).0 ≡ false → (resume m).1 ≡ begin m
unfolding resume
resume-begin m h = elim (Bool-cases (is_known m)) [
  | inl known ↦ absurd (ground arith)
  | inr fresh ↦ rw fresh refl
]
