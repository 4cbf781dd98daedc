-- ===== src/NvRecord/Replacements.antt =====
-- All branches of `nv_record_replace` of src/nv_record.c.
use cc2530_zigbee.Base.{
  ℕ, ◌+◌, ◌^◌, ◌≤◌, ◌<◌, ◌≡◌, ◌≢◌, ◌⊎◌, refl, sym, ap, ◌∙◌, Bool, true, false, ◌&&◌, ◌||◌, not,
  ◌==◌, ltb, leb, if◌then◌else◌, List, length, arith, Bool-cases, inl, inr, u32,
}
use cc2530_zigbee.NvRecord.{
  Result, ok, empty, invalid_argument, buffer_ownership, recovery_required, generation_exhausted,
  erase_limit_reached, Ram, is_ok, is_recovered, is_nothing, begin, resume, max_record,
}
use cc2530_zigbee.NvRecord.Flash.{Flash}
use cc2530_zigbee.NvRecord.Load.{caller, other, select_record}
use cc2530_zigbee.NvRecord.Replace.{erase_and_write, erase_limit, replace_selected, replace}
use cc2530_zigbee.NvRecord.Record.{chosen, record_of, generation_of-lt}
use cc2530_zigbee.NvRecord.Selection.{
  chosen_valid, Chosen, IsSound, image, select_record-Chosen, resume-Chosen, resume-begin,
}
use cc2530_zigbee.NvRecord.Loading.{IsClean, record_of_empty}
use cc2530_zigbee.NvRecord.Loads.{begin-IsClean, resume-IsClean, select_record-IsClean}
use cc2530_zigbee.NvRecord.NewPage.{new_page, state_of-new_page, generation_of-new_page}
use cc2530_zigbee.NvRecord.Outcome.{IsDead, dead_record, dead_empty, new_chosen, first_chosen}
use cc2530_zigbee.NvRecord.Replacing.{
  Replaced, exit_Replaced, finish_Replaced, Beside, erase_Replaced,
}

is_nothing_elim : (r : Result) → is_nothing r ≡ true → r ≡ empty
is_nothing_elim r h = ground arith

pub next_small : (n : ℕ) → n < 2 ^ 32 → (n == 0xffffffff) ≡ false → n + 1 < 2 ^ 32
next_small n h e = ground arith

pub not_255 : (i : ℕ) → (i ≡ 0) ⊎ (i ≡ 1) → (i == 255) ≡ false
not_255 i h = ground arith

pub low_page :
    (page : ℕ → List ℕ) (r : Result) (i : ℕ)
    → chosen page ≡ (r, i)
    → (is_ok r || is_recovered r) ≡ true
    → (i ≡ 0) ⊎ (i ≡ 1)
low_page page r i q t = elim (chosen_valid page (rw q t)) [
  | inl (e, v) ↦ inl (sym (ap (λ z. z.1) q) ∙ e)
  | inr (e, v) ↦ inr (sym (ap (λ z. z.1) q) ∙ e)
]

other_differs : (i : ℕ) → (i ≡ 0) ⊎ (i ≡ 1) → i ≢ other i
other_differs i (inl z) = rw z (λ e. absurd (omega arith))
other_differs i (inr z) = rw z (λ e. absurd (omega arith))

argument_bounds :
    (a b d : Bool) (n : ℕ)
    → (a || n == 0 || ltb max_record n || b || d) ≡ false
    → (n ≢ 0) × (n ≤ max_record)
argument_bounds a b d n h = (λ e. absurd (ground arith), ground arith)

module _ (F : Flash) (page : ℕ → List ℕ) (data' : List ℕ) (low : length data' ≢ 0)
    (high : length data' ≤ max_record) where
  -- From a page that is the choice, the other one is written.
  taken_Replaced :
      (limit : ℕ) (r : Result) (m : Ram) (c : F.Cells)
      → Chosen page r m
      → (is_ok r || is_recovered r) ≡ true
      → image F c ≡ page
      → IsClean m
      → (m.generation == 0xffffffff) ≡ false
      → Replaced F page data' (erase_and_write F (other m.selected) data' limit m c)
  taken_Replaced limit r m c ch t im k room =
      erase_Replaced F page data' p g low high small positive dead_keeps new_wins
        (inr (λ e. apart (sym (ap (λ z. z.1) q) ∙ sym e))) limit m c im k next
    where
      i : ℕ
      i = m.selected

      p : ℕ
      p = other m.selected

      g : ℕ
      g = m.generation + 1

      q : chosen page ≡ (r, i)
      q = (ch.picked t).0

      apart : i ≢ p
      apart = other_differs i (low_page page r i q t)

      lt : m.generation < 2 ^ 32
      lt = rw (ch.picked t).1 (generation_of-lt (page i))

      small : g < 2 ^ 32
      small = next_small m.generation lt room

      positive : g ≢ 0
      positive e = absurd (omega arith)

      next : u32 (m.generation + 1) ≡ g
      next = omega (arith, small)

      dead_keeps :
          (page' : ℕ → List ℕ)
          → Beside F page data' p g low high small positive page'
          → IsDead (page' p)
          → record_of page' ≡ record_of page
      dead_keeps page' beside dead = dead_record page page' r i q t (beside i apart) dead

      new_wins :
          (page' : ℕ → List ℕ)
          → Beside F page data' p g low high small positive page'
          → page' p ≡ new_page data' g
          → chosen page' ≡ (ok, p)
      new_wins page' beside e =
          new_chosen page page' r i q t (beside i apart)
            (rw (e, state_of-new_page data' g low high small positive) refl)
            (rw e (generation_of-new_page data' g low high small positive)
              ∙ ap (λ z. z + 1) (ch.picked t).1)

  -- Without a record, page 0 is.
  first_Replaced :
      (limit : ℕ) (m : Ram) (c : F.Cells)
      → (chosen page).0 ≡ empty
      → m.generation ≡ 0
      → image F c ≡ page
      → IsClean m
      → Replaced F page data' (erase_and_write F 0 data' limit m c)
  first_Replaced limit m c q z im k =
      erase_Replaced F page data' 0 1 low high (omega arith) (λ e. absurd (omega arith)) dead_keeps
        new_wins (inl (record_of_empty page q)) limit m c im k (rw z refl)
    where
      one : ℕ
      one = 1

      apart : one ≢ 0
      apart e = absurd (omega arith)

      dead_keeps :
          (page' : ℕ → List ℕ)
          → ((q' : ℕ) → q' ≢ 0 → page' q' ≡ page q')
          → IsDead (page' 0)
          → record_of page' ≡ record_of page
      dead_keeps page' beside dead = dead_empty page page' q (beside 1 apart) dead

      new_wins :
          (page' : ℕ → List ℕ)
          → ((q' : ℕ) → q' ≢ 0 → page' q' ≡ page q')
          → page' 0 ≡ new_page data' 1
          → chosen page' ≡ (ok, 0)
      new_wins page' beside e = first_chosen page page' q (beside 1 apart) (
          rw (e, state_of-new_page data' 1 low high (omega arith) (λ e'. absurd (omega arith)))
            refl)

  selected_Replaced :
      (limit allow_recovery : ℕ) (r : Result) (m : Ram) (c : F.Cells)
      → Chosen page r m
      → image F c ≡ page
      → IsClean m
      → Replaced F page data' (replace_selected F data' limit allow_recovery r m c)
  unfolding replace_selected
  selected_Replaced limit allow_recovery r m c ch im k =
      elim (Bool-cases (is_recovered r && allow_recovery == 0)) [
        | inl e ↦ rw e (finish_Replaced F page data' recovery_required m c im refl k)
        | inr e ↦ elim (Bool-cases (not (is_ok r) && not (is_recovered r) && not (is_nothing r))) [
          | inl e2 ↦ rw (e, e2) (finish_Replaced F page data' r m c im (ground arith) k)
          | inr e2 ↦ elim (Bool-cases (m.generation == 0xffffffff)) [
            | inl e3 ↦
                rw (e, e2, e3) (finish_Replaced F page data' generation_exhausted m c im refl k)
            | inr e3 ↦
                elim (Bool-cases (
                  leb erase_limit
                    (m.erase_attempts (if m.selected == 255 then 0 else other m.selected)))) [
                      | inl e4 ↦
                          rw (e, e2, e3, e4)
                            (finish_Replaced F page data' erase_limit_reached m c im refl k)
                      | inr e4 ↦ elim (Bool-cases (is_ok r || is_recovered r)) [
                        | inl t ↦
                            let here : (m.selected == 255) ≡ false =
                              not_255 m.selected (low_page page r m.selected (ch.picked t).0 t) in
                            rw (e, e2, e3, e4, here) (taken_Replaced limit r m c ch t im k e3)
                        | inr t ↦
                            let nothing : r ≡ empty = is_nothing_elim r (ground arith) in
                            let (none_, selected, zero_) = ch.nothing nothing in
                            let here : (m.selected == 255) ≡ true = rw selected refl in
                            rw (e, e2, e3, e4, here) (first_Replaced limit m c none_ zero_ im k)
                      ]
                    ]
          ]
        ]
      ]

-- From RAM whose status agrees with the pages where `resume` would rely on it, and whose latched
-- fault is neither recovered nor empty, a replacement leaves such RAM. One that answers ok has
-- recorded the data under the generation of the status, which is not 0. However it ends, at any
-- failed program, read or verification, the record of the pages is the one from before or the data
-- under some generation. So it is at a failed erase, whatever that leaves of its page, unless the
-- answer is `write_failed` and a scan accepts the changed page, or takes it for one of another
-- version; that page is then the only one that has changed, and not the one of the record.
pub replace_Replaced :
    (F : Flash) (reserved_end address : ℕ) (data' : List ℕ) (limit allow_recovery : ℕ) (m : Ram)
    (c : F.Cells)
    → IsSound (image F c) m
    → IsClean m
    → Replaced F (image F c) data' (replace F reserved_end address data' limit allow_recovery m c)
unfolding replace
replace_Replaced F reserved_end address data' limit allow_recovery m c s k =
    elim (Bool-cases (is_ok m.fault_latched)) [
      | inr bad ↦ rw bad (exit_Replaced F page data' m.fault_latched m c refl bad s k)
      | inl fine ↦
          elim (Bool-cases (
            address == 0
            || length data' == 0
            || ltb max_record (length data')
            || limit == 0
            || ltb 1 allow_recovery)) [
              | inl e ↦ rw (fine, e) (exit_Replaced F page data' invalid_argument m c refl refl s k)
              | inr e ↦
                  let bounds =
                    argument_bounds (address == 0) (limit == 0) (ltb 1 allow_recovery)
                      (length data') e in
                  elim (Bool-cases (caller reserved_end address (length data'))) [
                    | inr far ↦
                        rw (fine, e, far)
                          (exit_Replaced F page data' buffer_ownership m c refl refl s k)
                    | inl near ↦ elim (Bool-cases (resume m).0) [
                      | inl known ↦
                          rw (fine, e, near, known)
                            (selected_Replaced F page data' bounds.0 bounds.1 limit allow_recovery
                              ok (resume m).1 c (resume-Chosen page m s known) refl
                              (resume-IsClean m k))
                      | inr fresh ↦
                          let (same, ch) = select_record-Chosen F m c in
                          let found = select_record F (begin m) c in
                          rw (fine, e, near, fresh, resume-begin m fresh)
                            (selected_Replaced F page data' bounds.0 bounds.1 limit allow_recovery
                              found.0 found.1 found.2 ch same
                              (select_record-IsClean F (begin m) c (begin-IsClean m k)))
                    ]
                  ]
            ]
    ]
  where
    page : ℕ → List ℕ
    page = image F c
