-- ===== src/NvRecord/Attempt.antt =====
-- The write of a page by `nv_record_replace` of src/nv_record.c: however it ends, the page is the
-- new one or one that a selection passes over.
use cc2530_zigbee.Base.{
  ℕ, ◌+◌, ◌≡◌, ◌≢◌, ◌⊎◌, refl, sym, ap, ◌∙◌, Bool, true, false, ◌||◌, not, ◌==◌, ◌!=◌,
  if◌then◌else◌, List, ◌++◌, length, take, drop, arith, Bool-cases, inl, inr, u32, length-drop,
  append_assoc, take-append-drop,
}
use cc2530_zigbee.NvRecord.{
  Result, ok, recovered, corrupt, read_failed, write_failed, Ram, is_ok, is_recovered, is_nothing,
  is_valid, is_known, fault, finish,
}
use cc2530_zigbee.NvRecord.Flash.{Flash, commit_word, page_size}
use cc2530_zigbee.NvRecord.Scan.{scan_page, differs}
use cc2530_zigbee.NvRecord.Read.{scanned, scan_page_ok, scan_page_failed, scan_page-page, state_of}
use cc2530_zigbee.NvRecord.Replace.{program, new_header, new_crc, verify_new, commit_new}
use cc2530_zigbee.NvRecord.Selection.{is_ok_elim, not_ok, scan_page-Kept}
use cc2530_zigbee.NvRecord.Loading.{IsClean, scan_page-IsClean}
use cc2530_zigbee.NvRecord.NewPage.{front, new_page}
use cc2530_zigbee.NvRecord.Outcome.{IsDead, same_word, uncommitted-IsDead}
use cc2530_zigbee.NvRecord.Writing.{Same, program-other, take-program, program_failed, program-Same}

-- Is the word in the last four bytes?
IsDead-or :
    (xs ys : List ℕ)
    → length xs ≡ page_size
    → take 2044 xs ≡ ys
    → IsDead xs ⊎ (xs ≡ ys ++ commit_word)
unfolding differs
IsDead-or xs ys size h = elim (Bool-cases (differs (drop 2044 xs) 0 commit_word)) [
  | inr e ↦
      let tail : drop 2044 xs ≡ commit_word =
        same_word commit_word (drop 2044 xs) 0 (omega (arith, length-drop 2044 xs)) e in
      inr (sym (take-append-drop 2044 xs) ∙ (rw (h, tail) refl))
  | inl e ↦ inl (
      uncommitted-IsDead xs size
        (λ z. let same : differs commit_word 0 commit_word ≡ true = rw z at e in absurd cc))
]

fault-IsClean :
    (r : Result) (m : Ram) → (is_recovered r || is_nothing r) ≡ false → IsClean (fault r m)
unfolding fault finish
fault-IsClean r m h = h

fault_phase : (r : Result) (m : Ram) → (m.phase == 8) ≡ false → ((fault r m).phase == 8) ≡ false
unfolding fault finish
fault_phase r m h = h

module _ (F : Flash) (p : ℕ) (page : ℕ → List ℕ) (data' : List ℕ) (g : ℕ) (has : Bool) where
  -- How a write of page `p` over the pages has ended.
  pub record Attempted (o : Result × Ram × F.Cells) : Type 0 where
    pub others : (q : ℕ) → q ≢ p → F.page q o.2 ≡ page q
    pub attempt : IsDead (F.page p o.2) ⊎ (F.page p o.2 ≡ new_page data' g)
    pub clean : IsClean o.1
    pub finished :
        ((is_ok o.0 || is_recovered o.0) || is_known o.1) ≡ true
        → (F.page p o.2 ≡ new_page data' g)
          × (o.0 ≡ (if has then recovered else ok))
          × (o.1.selected ≡ p)
          × (o.1.generation ≡ g)
          × (o.1.record_length ≡ length data')

  as_new :
      {xs : List ℕ}
      → IsDead xs
        ⊎ (xs ≡ (front data' g ++ new_crc (new_header (length data') g) data') ++ commit_word)
      → IsDead xs ⊎ (xs ≡ new_page data' g)
  unfolding new_page
  as_new (inl d) = inl d
  as_new (inr e) =
      inr
        (e ∙ append_assoc (front data' g) (new_crc (new_header (length data') g) data') commit_word)

  -- An exit by a latched fault.
  pub stop_Attempted :
      (r : Result) (m : Ram) (c : F.Cells)
      → ((q : ℕ) → q ≢ p → F.page q c ≡ page q)
      → IsDead (F.page p c) ⊎ (F.page p c ≡ new_page data' g)
      → IsClean m
      → (is_ok r || is_recovered r) ≡ false
      → (m.phase == 8) ≡ false
      → Attempted (r, m, c)
  unfolding is_known
  stop_Attempted r m c o a k t f = record {
    others = o;
    attempt = a;
    clean = k;
    finished = λ h. absurd (ground arith);
  }

  verified_Attempted :
      (m : Ram) (c : F.Cells)
      → ((q : ℕ) → q ≢ p → F.page q c ≡ page q)
      → is_valid (state_of (F.page p c)) ≡ true
      → IsDead (F.page p c) ⊎ (F.page p c ≡ new_page data' g)
      → IsClean m
      → u32 (m.generation + 1) ≡ g
      → m.has_recovered ≡ has
      → Attempted (
        if m.has_recovered then recovered else ok,
        finish (if m.has_recovered then recovered else ok) (record m {
          selected = p;
          record_length = length data';
          generation = u32 (m.generation + 1);
          phase = 8;
        }),
        c,
      )
  unfolding finish
  verified_Attempted m c o v a k gen y = record {
    others = o;
    attempt = a;
    clean = k;
    finished = λ _. (new a, (rw y refl), refl, gen, refl);
  }
    where
      new : IsDead (F.page p c) ⊎ (F.page p c ≡ new_page data' g) → F.page p c ≡ new_page data' g
      new (inl dead) = let d = dead.0 in absurd (ground arith)
      new (inr e) = e

  -- The state in the RAM is that of the page.
  scanned-pages : (m : Ram) (xs : List ℕ) → (scanned F p false m xs).pages p ≡ state_of xs
  unfolding scanned
  scanned-pages m xs = ground arith

  verify_Attempted :
      (m : Ram) (c : F.Cells)
      → ((q : ℕ) → q ≢ p → F.page q c ≡ page q)
      → IsDead (F.page p c) ⊎ (F.page p c ≡ new_page data' g)
      → IsClean m
      → u32 (m.generation + 1) ≡ g
      → m.has_recovered ≡ has
      → Attempted (verify_new F p (length data') m c)
  unfolding verify_new
  verify_Attempted m c o a k gen y = elim (Bool-cases (is_ok s)) [
    | inr bad ↦
        let latched : m1.fault_latched ≡ read_failed =
          (scan_page_failed F p false (record m { phase = 7 }) c (not_ok s bad)).1 in
        rw bad (
          stop_Attempted m1.fault_latched m1 c1 others attempt clean (rw latched refl)
            (rw phase7 refl))
    | inl good ↦
        let e : m1 ≡ scanned F p false (record m { phase = 7 }) (F.page p c) =
          scan_page_ok F p false (record m { phase = 7 }) c (is_ok_elim s good) in
        elim (Bool-cases wrong) [
          | inl w ↦
              rw (good, w)
                (stop_Attempted corrupt (fault corrupt m1) c1 others attempt
                  (fault-IsClean corrupt m1 refl) refl (fault_phase corrupt m1 (rw phase7 refl)))
          | inr fine ↦
              rw (good, fine)
                (verified_Attempted m1 c1 others (judged e (ground arith)) attempt clean gen1 has1)
        ]
  ]
    where
      s : Result
      s = (scan_page F p false (record m { phase = 7 }) c).0

      m1 : Ram
      m1 = (scan_page F p false (record m { phase = 7 }) c).1

      c1 : F.Cells
      c1 = (scan_page F p false (record m { phase = 7 }) c).2

      wrong : Bool
      wrong =
          not (is_valid (m1.pages p))
          || m1.generations p != u32 (m1.generation + 1)
          || m1.lengths p != length data'

      kept : F.page p c1 ≡ F.page p c
      kept = scan_page-page F p false (record m { phase = 7 }) p c

      judged :
          m1 ≡ scanned F p false (record m { phase = 7 }) (F.page p c)
          → is_valid (m1.pages p) ≡ true
          → is_valid (state_of (F.page p c1)) ≡ true
      judged e v =
          let state : m1.pages p ≡ state_of (F.page p c) =
            ap (λ z. z.pages p) e ∙ scanned-pages (record m { phase = 7 }) (F.page p c) in
          rw (kept, ← state) v

      others : (q : ℕ) → q ≢ p → F.page q c1 ≡ page q
      others q ne = scan_page-page F p false (record m { phase = 7 }) q c ∙ o q ne

      attempt : IsDead (F.page p c1) ⊎ (F.page p c1 ≡ new_page data' g)
      attempt = rw kept a

      phase7 : m1.phase ≡ 7
      phase7 = (scan_page-Kept F p false (record m { phase = 7 }) c).0

      has1 : m1.has_recovered ≡ has
      has1 = (scan_page-Kept F p false (record m { phase = 7 }) c).1 ∙ y

      gen1 : u32 (m1.generation + 1) ≡ g
      gen1 = ap (λ z. u32 (z + 1)) (scan_page-Kept F p false (record m { phase = 7 }) c).3 ∙ gen

      clean : IsClean m1
      clean = scan_page-IsClean F p false (record m { phase = 7 }) c k

  -- From the commit word on.
  pub commit_Attempted :
      (limit : ℕ) (m : Ram) (c : F.Cells)
      → ((q : ℕ) → q ≢ p → F.page q c ≡ page q)
      → take 2044 (F.page p c) ≡ front data' g ++ new_crc (new_header (length data') g) data'
      → IsClean m
      → u32 (m.generation + 1) ≡ g
      → m.has_recovered ≡ has
      → Attempted (commit_new F p (length data') limit m c)
  unfolding commit_new
  commit_Attempted limit m c o t k gen y = elim (Bool-cases (is_ok (step.0))) [
    | inr bad ↦
        let latched : step.1.fault_latched ≡ write_failed =
          (program_failed F p limit 2044 commit_word m' c (not_ok _ bad)).1 in
        rw bad (
          stop_Attempted step.1.fault_latched step.1 step.2 others attempt (kept.3 k)
            (rw latched refl) (rw kept.0 refl))
    | inl good ↦
        rw good
          (verify_Attempted step.1 step.2 others attempt (kept.3 k) (rw kept.1 gen) (kept.2 ∙ y))
  ]
    where
      m' : Ram
      m' = record m { phase = 6 }

      step : Result × Ram × F.Cells
      step = program F p 2044 commit_word limit m' c

      kept : Same m' step.1
      kept = program-Same F p limit 2044 commit_word m' c

      others : (q : ℕ) → q ≢ p → F.page q step.2 ≡ page q
      others q ne = program-other F p limit 2044 q commit_word m' c ne ∙ o q ne

      attempt : IsDead (F.page p step.2) ⊎ (F.page p step.2 ≡ new_page data' g)
      attempt = as_new (
          IsDead-or (F.page p step.2) _ (F.length-page p step.2)
            (take-program F p limit 2044 commit_word m' c ∙ t))
