-- ===== src/NvRecord/Success.antt =====
-- A replacement of src/nv_record.c after a reset, on a flash that carries out what it does not
-- refuse.
use cc2530_zigbee.Base.{
  ℕ, ◌+◌, ◌^◌, ◌≤◌, ◌<◌, ◌≡◌, ◌≢◌, ◌⊎◌, refl, sym, ap, subst, ◌∙◌, true, false, ◌||◌, ◌==◌, ltb,
  List, length, arith, inl, inr, Bool-cases,
}
use cc2530_zigbee.NvRecord.{
  Result, ok, empty, Ram, initial, begin, is_known, resume, is_ok, is_recovered, max_record,
}
use cc2530_zigbee.NvRecord.Flash.{Flash}
use cc2530_zigbee.NvRecord.Scan.{scan_page}
use cc2530_zigbee.NvRecord.Read.{scanned, scan_page_ok, generation_of}
use cc2530_zigbee.NvRecord.Load.{caller, other, select_record}
use cc2530_zigbee.NvRecord.Replace.{replace_selected, replace}
use cc2530_zigbee.NvRecord.Record.{chosen, settled, Reported, generation_of-lt, select_pages-chosen}
use cc2530_zigbee.NvRecord.Selection.{
  Chosen, image, scan_page-image, both_Reported, select_record-Chosen, resume-begin,
}
use cc2530_zigbee.NvRecord.Replacements.{low_page, not_255, next_small}
use cc2530_zigbee.NvRecord.Healthy.{IsHealthy, IsReady, scan_good, erase_good}

settled-attempts :
    (r : Result) (i : ℕ) (m : Ram) → (settled r i m).erase_attempts ≡ m.erase_attempts
unfolding settled
settled-attempts r i m = elim (Bool-cases (is_ok r)) [
  | inl e ↦ rw e refl
  | inr e ↦ elim (Bool-cases (is_recovered r)) [
    | inl e' ↦ rw (e, e') refl
    | inr e' ↦ rw (e, e') refl
  ]
]

other_low : (i : ℕ) → other i ≤ 1
other_low i = ground arith

in_range :
    (address limit n : ℕ)
    → address ≢ 0
    → n ≢ 0
    → n ≤ max_record
    → limit ≢ 0
    → (address == 0 || n == 0 || ltb max_record n || limit == 0 || ltb 1 0) ≡ false
in_range address limit n a low high l = ground arith

-- After a reset nothing is latched, known or attempted.
fine : is_ok initial.fault_latched ≡ true
unfolding initial
fine = refl

fresh : (resume initial).0 ≡ false
unfolding initial resume is_known
fresh = refl

untried : (p : ℕ) → (begin initial).erase_attempts p ≡ 0
unfolding initial begin
untried p = refl

-- A replacement that selects first.
replace_fresh :
    (F : Flash) (reserved_end address : ℕ) (data' : List ℕ) (limit : ℕ) (m : Ram) (c : F.Cells)
    → is_ok m.fault_latched ≡ true
    → (address == 0 || length data' == 0 || ltb max_record (length data') || limit == 0 || ltb 1 0)
      ≡ false
    → caller reserved_end address (length data') ≡ true
    → (resume m).0 ≡ false
    → replace F reserved_end address data' limit 0 m c
      ≡ replace_selected F data' limit 0
          (select_record F (begin m) c).0
          (select_record F (begin m) c).1
          (select_record F (begin m) c).2
unfolding replace
replace_fresh F reserved_end address data' limit m c f e near new =
    rw (f, e, near, new, resume-begin m new) refl

module _ (F : Flash) (healthy : IsHealthy F) where
  -- The selection answers the choice, and has attempted no erase.
  select_good :
      (m : Ram) (c : F.Cells)
      → IsReady F healthy c
      → ((select_record F m c).0 ≡ (chosen (image F c)).0)
        × ((select_record F m c).1.erase_attempts ≡ m.erase_attempts)
        × IsReady F healthy (select_record F m c).2
  unfolding select_record scanned
  select_good m c ready =
      rw (good1, good2, e, select_pages-chosen (image F c) m2 told)
        (refl, settled-attempts (chosen (image F c)).0 (chosen (image F c)).1 m2, both2.1)
    where
      both1 : ((scan_page F 0 false m c).0 ≡ ok) × IsReady F healthy (scan_page F 0 false m c).2
      both1 = scan_good F healthy 0 false m c (omega arith) ready

      good1 : (scan_page F 0 false m c).0 ≡ ok
      good1 = both1.0

      m1 : Ram
      m1 = (scan_page F 0 false m c).1

      c1 : F.Cells
      c1 = (scan_page F 0 false m c).2

      both2 : ((scan_page F 1 false m1 c1).0 ≡ ok) × IsReady F healthy (scan_page F 1 false m1 c1).2
      both2 = scan_good F healthy 1 false m1 c1 (omega arith) both1.1

      good2 : (scan_page F 1 false m1 c1).0 ≡ ok
      good2 = both2.0

      m2 : Ram
      m2 = scanned F 1 false (scanned F 0 false m (F.page 0 c)) (F.page 1 c1)

      e : (scan_page F 1 false m1 c1).1 ≡ m2
      e =
          scan_page_ok F 1 false m1 c1 good2
          ∙ ap (λ z. scanned F 1 false z (F.page 1 c1)) (scan_page_ok F 0 false m c good1)

      told : Reported (image F c) m2
      told = (both_Reported F m c c1 (scan_page-image F 0 false m c)).0

  selected_good :
      (data' : List ℕ) (limit : ℕ) (r : Result) (m : Ram) (c : F.Cells)
      → length data' ≢ 0
      → length data' ≤ max_record
      → Chosen (image F c) r m
      → (r ≡ ok) ⊎ (r ≡ empty)
      → (r ≡ ok → m.generation ≢ 0xffffffff)
      → ((p : ℕ) → m.erase_attempts p ≡ 0)
      → healthy.budget ≤ limit
      → IsReady F healthy c
      → (replace_selected F data' limit 0 r m c).0 ≡ ok
  unfolding replace_selected
  selected_good data' limit r m c low high ch (inl e) room none enough ready =
      let taken : (is_ok r || is_recovered r) ≡ true = rw e refl in
      let there = ch.picked taken in
      let g = m.generation in
      let more : (g == 0xffffffff) ≡ false = ground (arith, room e) in
      let lt : g < 2 ^ 32 = rw there.1 (generation_of-lt (image F c m.selected)) in
      let small = next_small g lt more in
      let here : (m.selected == 255) ≡ false =
        not_255 m.selected (low_page (image F c) r m.selected there.0 taken) in
      let has : m.has_recovered ≡ false = ch.flagged ∙ (rw e refl) in
      rw (e, more, here, none (other m.selected))
        (erase_good F healthy (other m.selected) (g + 1) data' low high small
          (λ z. absurd (omega arith)) (other_low m.selected) limit m c (omega (arith, small)) has
          enough ready)
  selected_good data' limit r m c low high ch (inr e) room none enough ready =
      let (q, s, z) = ch.nothing e in
      let has : m.has_recovered ≡ false = ch.flagged ∙ (rw e refl) in
      let more : (m.generation == 0xffffffff) ≡ false = rw z refl in
      let here : (m.selected == 255) ≡ true = rw s refl in
      rw (e, more, here, none 0)
        (erase_good F healthy 0 1 data' low high (omega arith) (λ w. absurd (omega arith))
          (omega arith) limit m c (rw z refl) has enough ready)

  -- On a flash that carries out what it does not refuse, with no failure latched, the first
  -- replacement after a reset answers ok when the pages hold a record cleanly with a generation below
  -- the maximum, or none, and the arguments are in range: 1 to 128 bytes at an address in the
  -- callers' region, and a limit other than 0 that is enough for the flash. The flash refuses each
  -- word that is not aligned or has been attempted since its page was last erased and verified, and
  -- all words before that.
  pub replace_succeeds :
      (reserved_end address : ℕ) (data' : List ℕ) (limit : ℕ) (c : F.Cells)
      → ((chosen (image F c)).0 ≡ ok) ⊎ ((chosen (image F c)).0 ≡ empty)
      → ((chosen (image F c)).0 ≡ ok
          → generation_of (image F c (chosen (image F c)).1) ≢ 0xffffffff)
      → address ≢ 0
      → length data' ≢ 0
      → length data' ≤ max_record
      → limit ≢ 0
      → healthy.budget ≤ limit
      → IsReady F healthy c
      → caller reserved_end address (length data') ≡ true
      → (replace F reserved_end address data' limit 0 initial c).0 ≡ ok
  replace_succeeds reserved_end address data' limit c result room a low high l enough ready near =
      ap (λ o. o.0)
        (replace_fresh F reserved_end address data' limit initial c fine
          (in_range address limit (length data') a low high l) near fresh)
      ∙ selected_good data' limit found.0 found.1 found.2 low high
          (subst (λ q. Chosen q found.0 found.1) (sym both.0) both.1) (outcome result) small
          (λ p. ap (λ f. f p) good.1 ∙ untried p) enough good.2
    where
      found : Result × Ram × F.Cells
      found = select_record F (begin initial) c

      both : (image F found.2 ≡ image F c) × Chosen (image F c) found.0 found.1
      both = select_record-Chosen F initial c

      good :
          (found.0 ≡ (chosen (image F c)).0)
          × (found.1.erase_attempts ≡ (begin initial).erase_attempts)
          × IsReady F healthy found.2
      good = select_good (begin initial) c ready

      outcome :
          ((chosen (image F c)).0 ≡ ok) ⊎ ((chosen (image F c)).0 ≡ empty)
          → (found.0 ≡ ok) ⊎ (found.0 ≡ empty)
      outcome (inl e) = inl (good.0 ∙ e)
      outcome (inr e) = inr (good.0 ∙ e)

      small : found.0 ≡ ok → found.1.generation ≢ 0xffffffff
      small e z =
          let there = both.1.picked (rw e refl) in
          let index : (chosen (image F c)).1 ≡ found.1.selected = ap (λ o. o.1) there.0 in
          room (sym good.0 ∙ e) (rw index (sym there.1 ∙ z))
