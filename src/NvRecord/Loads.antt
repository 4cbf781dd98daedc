-- ===== src/NvRecord/Loads.antt =====
-- All branches of `nv_record_load` of src/nv_record.c.
use cc2530_zigbee.Base.{
  ℕ, ◌≡◌, refl, ap, subst, ◌∙◌, true, false, ◌&&◌, ◌||◌, not, ◌==◌, ltb, none, List, length, arith,
  Bool-cases, inl, inr, ltb-false,
}
use cc2530_zigbee.NvRecord.{
  Result, ok, empty, no_space, invalid_argument, buffer_ownership, read_failed, Ram, is_ok,
  is_recovered, begin, is_known, resume, finish,
}
use cc2530_zigbee.NvRecord.Flash.{Flash}
use cc2530_zigbee.NvRecord.Scan.{scan_page}
use cc2530_zigbee.NvRecord.Read.{scanned, scan_page_ok, scan_page_failed}
use cc2530_zigbee.NvRecord.Load.{
  caller, settle, select_pair, select_record, select_pages, is_current, load_end, load_selected,
  load_resumed, load,
}
use cc2530_zigbee.NvRecord.Record.{record_of}
use cc2530_zigbee.NvRecord.Selection.{
  is_ok_elim, Chosen, image, scan_page-image, scan_page-Kept, select_record-Chosen, not_ok, IsSound,
  resume-Chosen, resume-begin,
}
use cc2530_zigbee.NvRecord.Loading.{
  IsClean, record_of_empty, Loaded, exit_Loaded, publish_Loaded, load_checked_Loaded,
  scan_page-IsClean, unknown, finish-IsClean, finish_phase,
}

pub begin-IsClean : (m : Ram) → IsClean m → IsClean (begin m)
unfolding begin
begin-IsClean m h = h

pub resume-IsClean : (m : Ram) → IsClean m → IsClean (resume m).1
unfolding resume begin
resume-IsClean m h = elim (Bool-cases (is_known m)) [ inl e ↦ rw e h | inr e ↦ rw e h ]

select_pages-IsClean : (m : Ram) → IsClean m → IsClean (select_pages m).1
unfolding select_pages select_pair settle
select_pages-IsClean m h = ground arith

module _ (F : Flash) where
  pub select_record-IsClean : (m : Ram) (c : F.Cells) → IsClean m → IsClean (select_record F m c).1
  unfolding select_record
  select_record-IsClean m c h =
      let m1 = (scan_page F 0 false m c).1 in
      let c1 = (scan_page F 0 false m c).2 in
      let first = scan_page-IsClean F 0 false m c h in
      let second = scan_page-IsClean F 1 false m1 c1 first in
      elim (Bool-cases (is_ok (scan_page F 0 false m c).0)) [
        | inr e ↦ rw e first
        | inl e ↦ elim (Bool-cases (is_ok (scan_page F 1 false m1 c1).0)) [
          | inr e' ↦ rw (e, e') second
          | inl e' ↦ rw (e, e') (select_pages-IsClean (scan_page F 1 false m1 c1).1 second)
        ]
      ]

  -- An exit with a result that is left in the status.
  finish_Loaded :
      (page : ℕ → List ℕ) (capacity : ℕ) (r : Result) (m : Ram) (c : F.Cells)
      → image F c ≡ page
      → (is_ok r || is_recovered r) ≡ false
      → (r ≡ empty → record_of page ≡ none)
      → IsClean m
      → Loaded F page capacity (load_end F r (finish r m) c)
  finish_Loaded page capacity r m c q h z k =
      exit_Loaded F page capacity r (finish r m) c q h z
        (unknown page (finish r m) (finish_phase r m (ground arith))) (finish-IsClean r m k)

  load_selected_Loaded :
      (page : ℕ → List ℕ) (capacity : ℕ) (m : Ram) (c : F.Cells)
      → IsClean m
      → image F c ≡ page
      → Loaded F page capacity (load_selected F capacity (begin m) c)
  unfolding load_selected
  load_selected_Loaded page capacity m c k im = elim (Bool-cases (is_ok r || is_recovered r)) [
    | inr e ↦
        let z : (not (is_ok r) && not (is_recovered r)) ≡ true = ground arith in
        rw z (
          finish_Loaded page capacity r m1 c1 same e (λ w. record_of_empty page (ch.nothing w).0)
            clean)
    | inl e ↦
        let z : (not (is_ok r) && not (is_recovered r)) ≡ false = ground arith in
        elim (Bool-cases (ltb capacity m1.record_length)) [
          | inl small ↦
              rw (z, small)
                (finish_Loaded page capacity no_space m1 c1 same refl (λ w. absurd cc) clean)
          | inr room ↦
              rw (z, room)
                (load_checked_Loaded F page capacity r m1 c1 ch e (ltb-false _ _ room) clean same)
        ]
  ]
    where
      r : Result
      r = (select_record F (begin m) c).0

      m1 : Ram
      m1 = (select_record F (begin m) c).1

      c1 : F.Cells
      c1 = (select_record F (begin m) c).2

      same : image F c1 ≡ page
      same = (select_record-Chosen F m c).0 ∙ im

      ch : Chosen page r m1
      ch = subst (λ p. Chosen p r m1) im (select_record-Chosen F m c).1

      clean : IsClean m1
      clean = select_record-IsClean (begin m) c (begin-IsClean m k)

  load_resumed_Loaded :
      (page : ℕ → List ℕ) (capacity : ℕ) (m : Ram) (c : F.Cells)
      → Chosen page ok m
      → IsClean m
      → image F c ≡ page
      → Loaded F page capacity (load_resumed F capacity m c)
  unfolding load_resumed
  load_resumed_Loaded page capacity m c ch k im = elim (Bool-cases (ltb capacity m.record_length)) [
    | inl small ↦ rw small (finish_Loaded page capacity no_space m c im refl (λ w. absurd cc) k)
    | inr room ↦ elim (Bool-cases (is_ok s)) [
      | inr bad ↦
          let latched : m1.fault_latched ≡ read_failed =
            (scan_page_failed F m.selected true (record m { phase = 2 }) c (not_ok s bad)).1 in
          rw (room, bad)
            (exit_Loaded F page capacity m1.fault_latched m1 c1 same (rw latched refl)
              (λ z. absurd (ground arith)) (unknown page m1 (rw phase2 refl)) clean)
      | inl good ↦ elim (Bool-cases (is_current m.selected m1)) [
        | inr stale ↦ rw (room, good, stale) (load_selected_Loaded page capacity m1 c1 clean same)
        | inl current ↦
            let whole : F.page m.selected c ≡ page m.selected = λ i. im i m.selected in
            let e : m1 ≡ scanned F m.selected true (record m { phase = 2 }) (page m.selected) =
              scan_page_ok F m.selected true (record m { phase = 2 }) c (is_ok_elim s good)
              ∙ ap (scanned F m.selected true (record m { phase = 2 })) whole in
            let size : length (page m.selected) ≡ 2048 =
              rw (← whole) (F.length-page m.selected c) in
            let (q, g, l) = ch.picked refl in
            rw (room, good, current)
              (publish_Loaded F page capacity ok m m1 c1 q refl ch.flagged g l (ltb-false _ _ room)
                k same size e)
      ]
    ]
  ]
    where
      s : Result
      s = (scan_page F m.selected true (record m { phase = 2 }) c).0

      m1 : Ram
      m1 = (scan_page F m.selected true (record m { phase = 2 }) c).1

      c1 : F.Cells
      c1 = (scan_page F m.selected true (record m { phase = 2 }) c).2

      same : image F c1 ≡ page
      same = scan_page-image F m.selected true (record m { phase = 2 }) c ∙ im

      phase2 : m1.phase ≡ 2
      phase2 = (scan_page-Kept F m.selected true (record m { phase = 2 }) c).0

      clean : IsClean m1
      clean = scan_page-IsClean F m.selected true (record m { phase = 2 }) c k

  -- From RAM whose status agrees with the pages where `resume` would rely on it, and whose latched
  -- fault is neither recovered nor empty, a load changes no cell, leaves such RAM, and copies at most
  -- `capacity` bytes. It answers ok or recovered only with the record of the pages in the output, its
  -- length and its generation, not 0, in the status, and empty only when the pages hold no record.
  pub load_Loaded :
      (reserved_end output capacity : ℕ) (m : Ram) (c : F.Cells)
      → IsSound (image F c) m
      → IsClean m
      → Loaded F (image F c) capacity (load F reserved_end output capacity m c)
  unfolding load
  load_Loaded reserved_end output capacity m c s k = elim (Bool-cases (is_ok m.fault_latched)) [
    | inr bad ↦ rw bad (
        exit_Loaded F (image F c) capacity m.fault_latched m c refl (ground arith)
          (λ z. absurd (ground arith)) s k)
    | inl fine ↦ elim (Bool-cases (output == 0 || capacity == 0)) [
      | inl e ↦
          rw (fine, e)
            (exit_Loaded F (image F c) capacity invalid_argument m c refl refl (λ z. absurd cc) s k)
      | inr e ↦ elim (Bool-cases (caller reserved_end output capacity)) [
        | inr far ↦
            rw (fine, e, far)
              (exit_Loaded F (image F c) capacity buffer_ownership m c refl refl (λ z. absurd cc) s
                k)
        | inl near ↦ elim (Bool-cases (resume m).0) [
          | inl known ↦
              rw (fine, e, near, known)
                (load_resumed_Loaded (image F c) capacity (resume m).1 c
                  (resume-Chosen (image F c) m s known) (resume-IsClean m k) refl)
          | inr fresh ↦
              rw (fine, e, near, fresh, resume-begin m fresh)
                (load_selected_Loaded (image F c) capacity m c k refl)
        ]
      ]
    ]
  ]
