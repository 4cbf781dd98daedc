-- ===== src/NvRecord/Healthy.antt =====
-- On a flash that carries out what it does not refuse, the calls of src/nv_record.c come to their end.
use cc2530_zigbee.Base.{
  ℕ, zero, suc, ◌+◌, ◌*◌, ◌/◌, ◌%◌, ◌^◌, ◌≤◌, ◌<◌, ◌≡◌, ◌≢◌, refl, sym, ap, ◌∙◌, Bool, true, false,
  ◌||◌, not, ◌==◌, ◌!=◌, List, [], ◌++◌, length, take, drop, arith, append_assoc, drop_all, u32,
}
use cc2530_zigbee.NvRecord.{ok, page_valid, PageState, Ram, is_valid, max_record}
use cc2530_zigbee.NvRecord.Flash.{Flash, page_size, read_max, commit_word}
use cc2530_zigbee.NvRecord.Scan.{Scan, scan_chunks, scan_page, put_chunk, start}
use cc2530_zigbee.NvRecord.Read.{scanned, scan_page_ok, state_of, generation_of, length_of}
use cc2530_zigbee.NvRecord.Replace.{
  program, program_body, word_at, new_header, new_crc, verify_new, commit_new, write_new,
  erase_and_write,
}
use cc2530_zigbee.NvRecord.Selection.{scan_page-Kept}
use cc2530_zigbee.NvRecord.NewPage.{
  front, new_page, length-new_crc, state_of-new_page, generation_of-new_page, length_of-new_page,
}
use cc2530_zigbee.NvRecord.Filling.{blank}
use cc2530_zigbee.NvRecord.Attempts.{written_front}
use cc2530_zigbee.NvRecord.Writing.{program_done, program-Same, body-Same}

-- A flash as include/flash_write.h describes it, on hardware that does not fail: it carries out what
-- it does not refuse. A program needs an aligned word of four bytes that has not been attempted since
-- the last verified erase of its page, and both commands need a limit that is enough.
pub record IsHealthy (F : Flash) : Type 0 where
  pub budget : ℕ
  -- No failure is latched.
  pub ready : F.Cells → Bool
  -- The page has been erased, and the word at the offset not attempted since.
  pub fresh : ℕ → ℕ → F.Cells → Bool
  pub reads :
      (p o n : ℕ) (c : F.Cells)
      → p ≤ 1
      → n ≤ read_max
      → o + n ≤ page_size
      → ready c ≡ true
      → (F.read p o n c).0 ≡ 0
  pub ready-read : (p o n : ℕ) (c : F.Cells) → ready c ≡ true → ready (F.read p o n c).2 ≡ true
  pub erases : (p l : ℕ) (c : F.Cells) → p ≤ 1 → budget ≤ l → ready c ≡ true → (F.erase p l c).0 ≡ 0
  pub ready-erase :
      (p l : ℕ) (c : F.Cells)
      → (F.erase p l c).0 ≡ 0
      → ready c ≡ true
      → ready (F.erase p l c).1 ≡ true
  pub fresh-erase :
      (p l o : ℕ) (c : F.Cells) → (F.erase p l c).0 ≡ 0 → fresh p o (F.erase p l c).1 ≡ true
  pub programs :
      (p o : ℕ) (w : List ℕ) (l : ℕ) (c : F.Cells)
      → p ≤ 1
      → o % 4 ≡ 0
      → o + 4 ≤ page_size
      → length w ≡ 4
      → budget ≤ l
      → ready c ≡ true
      → fresh p o c ≡ true
      → (F.program p o w l c).0 ≡ 0
  pub ready-program :
      (p o : ℕ) (w : List ℕ) (l : ℕ) (c : F.Cells)
      → (F.program p o w l c).0 ≡ 0
      → ready c ≡ true
      → ready (F.program p o w l c).1 ≡ true
  pub fresh-program :
      (p o : ℕ) (w : List ℕ) (l k : ℕ) (c : F.Cells)
      → k ≢ o
      → fresh p k c ≡ true
      → fresh p k (F.program p o w l c).1 ≡ true

all_agree :
    (s : PageState) (a b k l : ℕ)
    → s ≡ page_valid
    → a ≡ b
    → k ≡ l
    → (not (is_valid s) || a != b || k != l) ≡ false
all_agree s a b k l h e f = ground arith

scanned-fields :
    (F : Flash) (p : ℕ) (m : Ram) (xs : List ℕ)
    → ((scanned F p false m xs).pages p ≡ state_of xs)
      × ((scanned F p false m xs).generations p ≡ generation_of xs)
      × ((scanned F p false m xs).lengths p ≡ length_of xs)
unfolding scanned
scanned-fields F p m xs = let here : (p == p) ≡ true = ground arith in rw here (refl, refl, refl)

module _ (F : Flash) (healthy : IsHealthy F) where
  abbrev pub IsReady : F.Cells → Type 0
  IsReady c = healthy.ready c ≡ true

  chunks_good :
      (p : ℕ) (capture : Bool) (n o : ℕ) (s : Scan) (c : F.Cells)
      → p ≤ 1
      → o + 32 * n ≤ 2048
      → IsReady c
      → ((scan_chunks F p capture n o s c).0 ≡ 0) × IsReady (scan_chunks F p capture n o s c).2
  unfolding scan_chunks
  chunks_good p capture zero o s c low h ready = (refl, ready)
  chunks_good p capture (suc n) o s c low h ready =
      rw (healthy.reads p o read_max c low (omega arith) (omega arith) ready) (
        chunks_good p capture n (o + read_max) (put_chunk capture o (F.read p o read_max c).1 s)
          (F.read p o read_max c).2 low (omega arith) (healthy.ready-read p o read_max c ready))

  pub scan_good :
      (p : ℕ) (capture : Bool) (m : Ram) (c : F.Cells)
      → p ≤ 1
      → IsReady c
      → ((scan_page F p capture m c).0 ≡ ok) × IsReady (scan_page F p capture m c).2
  unfolding scan_page
  scan_good p capture m c low ready =
      let here = chunks_good p capture 64 0 start c low (omega arith) ready in
      rw here.0 (refl, here.1)

  -- The words of the page from the offset on can be programmed.
  abbrev FreshFrom : ℕ → ℕ → F.Cells → Type 0
  FreshFrom p o c = IsReady c × ((k : ℕ) → o ≤ k → healthy.fresh p k c ≡ true)

  pub program_good :
      (p o : ℕ) (w : List ℕ) (l : ℕ) (m : Ram) (c : F.Cells)
      → p ≤ 1
      → o % 4 ≡ 0
      → o + 4 ≤ 2048
      → length w ≡ 4
      → healthy.budget ≤ l
      → FreshFrom p o c
      → ((program F p o w l m c).0 ≡ ok) × FreshFrom p (o + 4) (program F p o w l m c).2
  unfolding program
  program_good p o w l m c low aligned h four enough (ready, new) =
      let done = healthy.programs p o w l c low aligned h four enough ready (new o (omega arith)) in
      rw done (
        refl,
        (
          healthy.ready-program p o w l c done ready,
          λ k le.
              healthy.fresh-program p o w l k c (λ e. absurd (omega arith)) (new k (omega arith)),
        ),
      )

  pub body_good :
      (p : ℕ) (content : List ℕ) (l n o : ℕ) (m : Ram) (c : F.Cells)
      → p ≤ 1
      → o % 4 ≡ 0
      → o + 4 * n ≤ 2048
      → healthy.budget ≤ l
      → FreshFrom p o c
      → ((program_body F p content l n o m c).0 ≡ ok)
        × FreshFrom p (o + 4 * n) (program_body F p content l n o m c).2
  unfolding program_body word_at
  body_good p content l zero o m c low aligned h enough (ready, new) =
      (refl, (ready, λ k le. new k (omega arith)))
  body_good p content l (suc n) o m c low aligned h enough f =
      let step = program F p o (word_at content o) l m c in
      let here =
        program_good p o (word_at content o) l m c low aligned (omega arith) refl enough f in
      let end_ : o + 4 * suc n ≡ o + 4 + 4 * n = omega arith in
      rw (here.0, end_)
        (body_good p content l n (o + 4) step.1 step.2 low (omega arith) (omega arith) enough
          here.1)

  -- A written page passes the verification.
  verify_good :
      (p g : ℕ) (data' : List ℕ) (m : Ram) (c : F.Cells)
      → state_of (F.page p c) ≡ page_valid
      → generation_of (F.page p c) ≡ g
      → length_of (F.page p c) ≡ length data'
      → u32 (m.generation + 1) ≡ g
      → m.has_recovered ≡ false
      → p ≤ 1
      → IsReady c
      → (verify_new F p (length data') m c).0 ≡ ok
  unfolding verify_new
  verify_good p g data' m c v gen len next y bound ready =
      let m7 = record m { phase = 7 } in
      let good = (scan_good p false m7 c bound ready).0 in
      let e = scan_page_ok F p false m7 c good in
      let kept = scan_page-Kept F p false m7 c in
      let there = scanned-fields F p m7 (F.page p c) in
      let m1 = (scan_page F p false m7 c).1 in
      let fine : (not (is_valid (m1.pages p))
            || m1.generations p != u32 (m1.generation + 1)
            || m1.lengths p != length data')
          ≡ false =
        all_agree (m1.pages p) (m1.generations p) (u32 (m1.generation + 1)) (m1.lengths p)
          (length data') (ap (λ z. z.pages p) e ∙ there.0 ∙ v)
          (ap (λ z. z.generations p) e ∙ there.1 ∙ gen ∙ sym (ap (λ z. u32 (z + 1)) kept.3 ∙ next))
          (ap (λ z. z.lengths p) e ∙ there.2 ∙ len) in
      let has : m1.has_recovered ≡ false = kept.1 ∙ y in rw (good, fine, has) refl

  module _ (p g : ℕ) (data' : List ℕ) (low : length data' ≢ 0) (high : length data' ≤ max_record)
      (small : g < 2 ^ 32) (positive : g ≢ 0) (bound : p ≤ 1) where
    commit_good :
        (limit : ℕ) (m : Ram) (c : F.Cells)
        → take 2044 (F.page p c) ≡ front data' g ++ new_crc (new_header (length data') g) data'
        → u32 (m.generation + 1) ≡ g
        → m.has_recovered ≡ false
        → healthy.budget ≤ limit
        → FreshFrom p 2044 c
        → (commit_new F p (length data') limit m c).0 ≡ ok
    unfolding commit_new new_page
    commit_good limit m c t next y enough f =
        let m6 = record m { phase = 6 } in
        let step = program F p 2044 commit_word limit m6 c in
        let both =
          program_good p 2044 commit_word limit m6 c bound (omega arith) (omega arith) refl enough
            f in
        let good = both.0 in
        let kept = program-Same F p limit 2044 commit_word m6 c in
        let behind : drop 2048 (F.page p c) ≡ [] =
          drop_all 2048 (F.page p c) (omega (arith, F.length-page p c)) in
        let page : F.page p step.2 ≡ new_page data' g =
          program_done F p limit 2044 commit_word m6 c good refl
          ∙ (rw (t, behind)
              (append_assoc (front data' g) (new_crc (new_header (length data') g) data')
                commit_word)) in
        rw good (
          verify_good p g data' step.1 step.2
            (rw page (state_of-new_page data' g low high small positive))
            (rw page (generation_of-new_page data' g low high small positive))
            (rw page (length_of-new_page data' g low high small positive)) (rw kept.1 next)
            (kept.2 ∙ y) bound both.1.0)

    write_good :
        (limit : ℕ) (m : Ram) (c : F.Cells)
        → F.page p c ≡ blank
        → u32 (m.generation + 1) ≡ g
        → m.has_recovered ≡ false
        → healthy.budget ≤ limit
        → FreshFrom p 0 c
        → (write_new F p
            (new_header (length data') g)
            data'
            (new_crc (new_header (length data') g) data')
            limit
            m
            c).0
          ≡ ok
    unfolding write_new
    write_good limit m c e next y enough f =
        let crc = new_crc (new_header (length data') g) data' in
        let content = new_header (length data') g ++ data' in
        let n = (12 + length data' + 3) / 4 in
        let m4 = record m { phase = 4 } in
        let body = program_body F p content limit n 0 m4 c in
        let m5 = record body.1 { phase = 5 } in
        let step = program F p 2040 crc limit m5 body.2 in
        let both1 = body_good p content limit n 0 m4 c bound (omega arith) (omega arith) enough f in
        let good1 : body.0 ≡ ok = both1.0 in
        let later : FreshFrom p 2040 body.2 = (both1.1.0, λ k le. both1.1.1 k (omega arith)) in
        let both2 =
          program_good p 2040 crc limit m5 body.2 bound (omega arith) (omega arith)
            (length-new_crc (new_header (length data') g) data') enough later in
        let good2 : step.0 ≡ ok = both2.0 in
        let kept1 = body-Same F p limit content n 0 m4 c in
        let kept2 = program-Same F p limit 2040 crc m5 body.2 in
        rw (good1, good2)
          (commit_good limit step.1 step.2
            (written_front F p data' g limit m4 m5 c high e good1 good2)
            (rw (kept2.1, kept1.1) next) (kept2.2 ∙ kept1.2 ∙ y) enough both2.1)

    pub erase_good :
        (limit : ℕ) (m : Ram) (c : F.Cells)
        → u32 (m.generation + 1) ≡ g
        → m.has_recovered ≡ false
        → healthy.budget ≤ limit
        → IsReady c
        → (erase_and_write F p data' limit m c).0 ≡ ok
    unfolding erase_and_write
    erase_good limit m c next y enough ready =
        let good = healthy.erases p limit c bound enough ready in
        rw (good, next)
          (write_good limit _ (F.erase p limit c).1 (F.erase_ok p limit c good) next y enough (
            healthy.ready-erase p limit c good ready,
            λ k le. healthy.fresh-erase p limit k c good,
          ))
