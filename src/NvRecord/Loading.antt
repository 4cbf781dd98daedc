-- ===== src/NvRecord/Loading.antt =====
-- `nv_record_load` of src/nv_record.c finds the record of the pages.
use cc2530_zigbee.Base.{
  ℕ, ◌≤◌, ◌≡◌, ◌≢◌, ◌⊎◌, refl, sym, ap, ◌∙◌, Bool, true, false, ◌&&◌, ◌||◌, ◌==◌, none, some, List,
  length, take, drop, arith, Bool-cases, inl, inr, take-append_le, take-take, length-take,
  length-drop,
}
use cc2530_zigbee.NvRecord.{
  Result, ok, empty, corrupt, read_failed, Ram, is_ok, is_recovered, is_nothing, is_valid, is_known,
  finish, max_record,
}
use cc2530_zigbee.NvRecord.Flash.{Flash}
use cc2530_zigbee.NvRecord.Scan.{scan_page, staged}
use cc2530_zigbee.NvRecord.Read.{
  scanned, scan_page_ok, scan_page_failed, state_of, generation_of, length_of, body_of,
}
use cc2530_zigbee.NvRecord.Load.{is_current, publish, load_end, load_checked}
use cc2530_zigbee.NvRecord.Record.{chosen, entry, record_of, state_of-page_valid}
use cc2530_zigbee.NvRecord.Selection.{
  is_ok_elim, chosen_valid, Chosen, image, scan_page-image, scan_page-Kept, not_ok, IsSound,
}

-- A latched fault is none of the results of a selection.
abbrev pub IsClean : Ram → Type 0
IsClean m = (is_recovered m.fault_latched || is_nothing m.fault_latched) ≡ false

-- The record of a choice that is taken, and of one that is not.
pub record_of_taken :
    (page : ℕ → List ℕ) (r : Result) (i : ℕ)
    → chosen page ≡ (r, i)
    → (is_ok r || is_recovered r) ≡ true
    → record_of page ≡ some (generation_of (page i), body_of (page i))
unfolding record_of
record_of_taken page r i q h = rw q (entry_taken r h)
  where
    entry_taken :
        (z : Result)
        → (is_ok z || is_recovered z) ≡ true
        → entry z (page i) ≡ some (generation_of (page i), body_of (page i))
    entry_taken z t = ground arith

pub record_of_empty : (page : ℕ → List ℕ) → (chosen page).0 ≡ empty → record_of page ≡ none
unfolding record_of
record_of_empty page h = rw h refl

pub taken_page :
    (page : ℕ → List ℕ) (r : Result) (i : ℕ)
    → chosen page ≡ (r, i)
    → (is_ok r || is_recovered r) ≡ true
    → (generation_of (page i) ≢ 0) × (length_of (page i) ≤ max_record)
taken_page page r i q h =
    let t : (is_ok (chosen page).0 || is_recovered (chosen page).0) ≡ true = rw q h in
    let bounds = state_of-page_valid (page i) (valid (chosen_valid page t)) in (bounds.0, bounds.2)
  where
    valid :
        (((chosen page).1 ≡ 0) × (is_valid (state_of (page 0)) ≡ true))
          ⊎ (((chosen page).1 ≡ 1) × (is_valid (state_of (page 1)) ≡ true))
        → is_valid (state_of (page i)) ≡ true
    valid (inl (e, v)) = let z : i ≡ 0 = sym (ap (λ z. z.1) q) ∙ e in rw z v
    valid (inr (e, v)) = let z : i ≡ 1 = sym (ap (λ z. z.1) q) ∙ e in rw z v

-- The captured bytes up to the length are the record.
take-staged :
    (xs old : List ℕ)
    → length xs ≡ 2048
    → length_of xs ≤ max_record
    → (take (length_of xs) (staged (take max_record (drop 12 xs)) old) ≡ body_of xs)
      × (length (body_of xs) ≡ length_of xs)
unfolding staged body_of
take-staged xs old h k =
    let d = length-drop 12 xs in
    let t = length-take max_record (drop 12 xs) in
    (
      take-append_le (length_of xs) (take max_record (drop 12 xs)) _ (omega (arith, d, t))
          ∙ take-take (length_of xs) max_record (drop 12 xs) k,
      omega (arith, d, length-take (length_of xs) (drop 12 xs)),
    )

-- The phase or the result is not that of a selection that is known.
pub unknown :
    (page : ℕ → List ℕ) (m : Ram) → (m.phase == 8 && is_ok m.result) ≡ false → IsSound page m
unfolding is_known
unknown page m h k = absurd (ground arith)

pub finish_phase :
    (r : Result) (m : Ram)
    → is_ok r ≡ false
    → ((finish r m).phase == 8 && is_ok (finish r m).result) ≡ false
unfolding finish
finish_phase r m h = ground arith

pub finish-IsClean : (r : Result) (m : Ram) → IsClean m → IsClean (finish r m)
unfolding finish
finish-IsClean r m h = h

module _ (F : Flash) where
  -- What holds of the end of a load over pages.
  pub record Loaded (page : ℕ → List ℕ) (capacity : ℕ) (o : Result × List ℕ × Ram × F.Cells)
      : Type 0 where
    pub same : image F o.3 ≡ page
    pub sound : IsSound page o.2
    pub clean : IsClean o.2
    pub fits : length o.1 ≤ capacity
    pub taken :
        (is_ok o.0 || is_recovered o.0) ≡ true
        → (record_of page ≡ some (o.2.generation, o.1))
          × (o.2.record_length ≡ length o.1)
          × (o.2.generation ≢ 0)
    pub nothing : o.0 ≡ empty → record_of page ≡ none

  -- An exit that copies nothing.
  pub exit_Loaded :
      (page : ℕ → List ℕ) (capacity : ℕ) (r : Result) (m : Ram) (c : F.Cells)
      → image F c ≡ page
      → (is_ok r || is_recovered r) ≡ false
      → (r ≡ empty → record_of page ≡ none)
      → IsSound page m
      → IsClean m
      → Loaded page capacity (load_end F r m c)
  unfolding load_end
  exit_Loaded page capacity r m c q h z s k = record {
    same = q;
    sound = s;
    clean = k;
    fits = omega arith;
    taken = λ t. absurd (ground arith);
    nothing = z;
  }

  pub scan_page-IsClean :
      (p : ℕ) (capture : Bool) (m : Ram) (c : F.Cells)
      → IsClean m
      → IsClean (scan_page F p capture m c).1
  unfolding scanned
  scan_page-IsClean p capture m c h = elim (Bool-cases (is_ok (scan_page F p capture m c).0)) [
    | inl good ↦ rw (scan_page_ok F p capture m c (is_ok_elim _ good)) h
    | inr bad ↦ rw (scan_page_failed F p capture m c (not_ok _ bad)).1 refl
  ]

  pub publish_Loaded :
      (page : ℕ → List ℕ) (capacity : ℕ) (r : Result) (m m1 : Ram) (c1 : F.Cells)
      → chosen page ≡ (r, m.selected)
      → (is_ok r || is_recovered r) ≡ true
      → m.has_recovered ≡ is_recovered r
      → m.generation ≡ generation_of (page m.selected)
      → m.record_length ≡ length_of (page m.selected)
      → m.record_length ≤ capacity
      → IsClean m
      → image F c1 ≡ page
      → length (page m.selected) ≡ 2048
      → m1 ≡ scanned F m.selected true (record m { phase = 2 }) (page m.selected)
      → Loaded page capacity (publish F r m1 c1)
  unfolding publish scanned finish is_known
  publish_Loaded page capacity r m m1 c1 q t y g l fit k im size e =
      let bounds = taken_page page r m.selected q t in
      let bytes = take-staged (page m.selected) m.stage size bounds.1 in
      rw (e, l, bytes.0)
        (record {
          same = im;
          sound =
              λ known. let done : r ≡ ok = is_ok_elim r (ground arith) in (rw (← done) q, g, refl);
          clean = k;
          fits = omega (arith, bytes.1);
          taken = λ _. (rw g (record_of_taken page r m.selected q t), sym bytes.1, rw g bounds.0);
          nothing = λ z. absurd (ground arith);
        })

  pub load_checked_Loaded :
      (page : ℕ → List ℕ) (capacity : ℕ) (r : Result) (m : Ram) (c : F.Cells)
      → Chosen page r m
      → (is_ok r || is_recovered r) ≡ true
      → m.record_length ≤ capacity
      → IsClean m
      → image F c ≡ page
      → Loaded page capacity (load_checked F r m c)
  unfolding load_checked
  load_checked_Loaded page capacity r m c ch t fit k im = elim (Bool-cases (is_ok s)) [
    | inr bad ↦
        let latched : m1.fault_latched ≡ read_failed =
          (scan_page_failed F m.selected true (record m { phase = 2 }) c (not_ok s bad)).1 in
        rw bad (
          exit_Loaded page capacity m1.fault_latched m1 c1 same (rw latched refl)
            (λ z. absurd (ground arith)) (unknown page m1 (rw phase2 refl)) clean)
    | inl good ↦
        let whole : F.page m.selected c ≡ page m.selected = λ i. im i m.selected in
        let e : m1 ≡ scanned F m.selected true (record m { phase = 2 }) (page m.selected) =
          scan_page_ok F m.selected true (record m { phase = 2 }) c (is_ok_elim s good)
          ∙ ap (scanned F m.selected true (record m { phase = 2 })) whole in
        let size : length (page m.selected) ≡ 2048 = rw (← whole) (F.length-page m.selected c) in
        elim (Bool-cases (is_current m.selected m1)) [
          | inl current ↦
              let (q, g, l) = ch.picked t in
              rw (good, current)
                (publish_Loaded page capacity r m m1 c1 q t ch.flagged g l fit k same size e)
          | inr stale ↦
              rw (good, stale)
                (exit_Loaded page capacity corrupt (finish corrupt m1) c1 same refl (λ z. absurd cc)
                  (unknown page (finish corrupt m1) (finish_phase corrupt m1 refl))
                  (finish-IsClean corrupt m1 clean))
        ]
  ]
    where
      s : Result
      s = (scan_page F m.selected true (record m { phase = 2 }) c).0

      m1 : Ram
      m1 = (scan_page F m.selected true (record m { phase = 2 }) c).1

      c1 : F.Cells
      c1 = (scan_page F m.selected true (record m { phase = 2 }) c).2

      same : image F c1 ≡ page
      same = scan_page-image F m.selected true (record m { phase = 2 }) c ∙ im

      phase2 : m1.phase ≡ 2
      phase2 = (scan_page-Kept F m.selected true (record m { phase = 2 }) c).0

      clean : IsClean m1
      clean = scan_page-IsClean m.selected true (record m { phase = 2 }) c k
