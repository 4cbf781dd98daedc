-- ===== src/NvRecord/Read.antt =====
-- The reads of `scan_page` of src/nv_record.c: when all of them succeed, it has judged the page.
use cc2530_zigbee.Base.{
  ℕ, zero, suc, ◌+◌, ◌-◌, ◌*◌, ◌≤◌, ◌≡◌, ◌≢◌, refl, ap, ◌∙◌, Bool, true, false, ltb, ◌==◌, ==_true,
  ltb-true, if◌then◌else◌, List, [], ◌∷◌, ◌++◌, length, take, drop, get_or, decode32, arith,
  length-append, take_all, take-append_ge, drop-append, length-take, length-drop, take-append-drop,
  append_assoc, append_nil, Bool-cases, inl, inr,
}
use cc2530_zigbee.NvRecord.{
  ok, Ram, read_failed, PageState, page_unchecked, put, fault, finish, max_record,
}
use cc2530_zigbee.NvRecord.Flash.{Flash, read_max, page_size}
use cc2530_zigbee.NvRecord.Crc.{crc_update, crc_steps, split, join, crc_update-append}
use cc2530_zigbee.NvRecord.Scan.{
  Scan, put_bytes, put_chunk, scan_chunks, scan_page, start, page_state, staged,
}
use cc2530_zigbee.NvRecord.View.{view, view-append, all_erased, is_padded}

-- The scan of a prefix of a page.
unfoldable pub seen : Bool → List ℕ → Scan
seen capture xs = view capture (crc_update 0xffffffff (take 2040 xs)) xs

seen_nil : (capture : Bool) → seen capture [] ≡ start
unfolding seen view start crc_update crc_steps split join all_erased is_padded
seen_nil true = refl
seen_nil false = refl

-- The bytes of a chunk that the CRC takes in.
crc_share :
    (xs ys : List ℕ)
    → length ys ≡ read_max
    → length xs + read_max ≤ page_size
    → crc_update
        (crc_update 0xffffffff (take 2040 xs))
        (take (if ltb (length xs) (2040 - read_max) then read_max else 2040 - length xs) ys)
      ≡ crc_update 0xffffffff (take 2040 (xs ++ ys))
crc_share xs ys h k =
    let all : take 2040 xs ≡ xs = take_all 2040 xs (omega arith) in
    let more : take 2040 (xs ++ ys) ≡ xs ++ take (2040 - length xs) ys =
      take-append_ge 2040 (2040 - length xs) xs ys (omega arith) in
    rw (all, more, crc_update-append 0xffffffff xs (take (2040 - length xs) ys))
      (elim (Bool-cases (ltb (length xs) (2040 - read_max))) [
        | inl low ↦
            let lt = ltb-true (length xs) (2040 - read_max) low in
            let whole : take (2040 - length xs) ys ≡ ys =
              take_all (2040 - length xs) ys (omega arith) in
            let same : take read_max ys ≡ ys = take_all read_max ys (omega arith) in
            rw (low, whole, same) refl
        | inr high ↦ rw high refl
      ])

put_chunk-view :
    (capture : Bool) (o k : ℕ) (xs ys : List ℕ)
    → put_chunk capture o ys (view capture k xs)
      ≡ put_bytes capture o ys (
          view capture
            (crc_update k (take (if ltb o (2040 - read_max) then read_max else 2040 - o) ys))
            xs)
unfolding put_chunk view
put_chunk-view capture o k xs ys = refl

seen-append :
    (capture : Bool) (xs ys : List ℕ)
    → length ys ≡ read_max
    → length xs + read_max ≤ page_size
    → put_chunk capture (length xs) ys (seen capture xs) ≡ seen capture (xs ++ ys)
unfolding seen
seen-append capture xs ys h k =
    put_chunk-view capture (length xs) (crc_update 0xffffffff (take 2040 xs)) xs ys
    ∙ (rw (crc_share xs ys h k)
        (view-append capture (crc_update 0xffffffff (take 2040 (xs ++ ys))) xs ys))

-- The judgement of a page, its generation, its length and its record.
unfoldable pub state_of : List ℕ → PageState
state_of xs = page_state (seen false xs)

unfoldable pub generation_of : List ℕ → ℕ
generation_of xs = decode32 (take 12 xs) 8

unfoldable pub length_of : List ℕ → ℕ
length_of xs = get_or (take 12 xs) 6 0

unfoldable pub body_of : List ℕ → List ℕ
body_of xs = take (length_of xs) (drop 12 xs)

module _ (F : Flash) (p : ℕ) (capture : Bool) where
  scan_chunks_go :
      (n o : ℕ) (s : Scan) (c : F.Cells)
      → (F.read p o read_max c).0 ≡ 0
      → scan_chunks F p capture (suc n) o s c
        ≡ scan_chunks F p capture n
            (o + read_max)
            (put_chunk capture o (F.read p o read_max c).1 s)
            (F.read p o read_max c).2
  unfolding scan_chunks
  scan_chunks_go n o s c e = rw e refl

  scan_chunks_stop :
      (n o : ℕ) (s : Scan) (c : F.Cells)
      → ((F.read p o read_max c).0 == 0) ≡ false
      → scan_chunks F p capture (suc n) o s c
        ≡ ((F.read p o read_max c).0, s, (F.read p o read_max c).2)
  unfolding scan_chunks
  scan_chunks_stop n o s c e = rw e refl

  -- A scan changes no cell.
  pub scan_chunks-page :
      (n o q : ℕ) (s : Scan) (c : F.Cells)
      → F.page q (scan_chunks F p capture n o s c).2 ≡ F.page q c
  unfolding scan_chunks
  scan_chunks-page zero o q s c = refl
  scan_chunks-page (suc n) o q s c = elim (Bool-cases ((F.read p o read_max c).0 == 0)) [
    | inl e ↦
        let chunk = (F.read p o read_max c).1 in
        let c' = (F.read p o read_max c).2 in
        rw (scan_chunks_go n o s c (==_true _ _ e)) (
          scan_chunks-page n (o + read_max) q (put_chunk capture o chunk s) c'
          ∙ F.page-read p o read_max q c)
    | inr e ↦ rw (scan_chunks_stop n o s c e) (F.page-read p o read_max q c)
  ]

  scan_chunks-seen :
      (n : ℕ) (xs ys : List ℕ) (c : F.Cells)
      → F.page p c ≡ xs ++ ys
      → length ys ≡ n * read_max
      → length xs + length ys ≡ page_size
      → (scan_chunks F p capture n (length xs) (seen capture xs) c).0 ≡ 0
      → (scan_chunks F p capture n (length xs) (seen capture xs) c).1 ≡ seen capture (xs ++ ys)
  unfolding scan_chunks
  scan_chunks-seen zero xs [] c e h k r = rw (append_nil xs) refl
  scan_chunks-seen zero xs (y ∷ ys) c e h k r = absurd (omega arith)
  scan_chunks-seen (suc n) xs ys c e h k r =
      elim (Bool-cases ((F.read p (length xs) read_max c).0 == 0)) [
        | inr bad ↦
            let stop = scan_chunks_stop n (length xs) (seen capture xs) c bad in
            let r' : (F.read p (length xs) read_max c).0 ≡ 0 = rw stop at r in absurd (ground arith)
        | inl good ↦
            let status = ==_true _ _ good in
            let c' = (F.read p (length xs) read_max c).2 in
            let first = take read_max ys in
            let rest = drop read_max ys in
            let whole : first ++ rest ≡ ys = take-append-drop read_max ys in
            let len : length first ≡ read_max = omega (arith, length-take read_max ys) in
            let chunk : (F.read p (length xs) read_max c).1 ≡ first =
              F.read_ok p (length xs) read_max c status
              ∙ ap (take read_max) (rw e (drop-append xs ys (length xs) refl)) in
            let next : length (xs ++ first) ≡ length xs + read_max =
              omega (arith, length-append xs first) in
            let step : scan_chunks F p capture (suc n) (length xs) (seen capture xs) c
                ≡ scan_chunks F p capture n (length (xs ++ first)) (seen capture (xs ++ first)) c' =
              scan_chunks_go n (length xs) (seen capture xs) c status
              ∙ (rw (chunk, seen-append capture xs first len (omega arith), next) refl) in
            let page : F.page p c' ≡ (xs ++ first) ++ rest =
              F.page-read p (length xs) read_max p c
              ∙ (rw (e, append_assoc xs first rest, whole) refl) in
            let all : (xs ++ first) ++ rest ≡ xs ++ ys =
              rw (append_assoc xs first rest, whole) refl in
            rw (step, ← all)
              (scan_chunks-seen n (xs ++ first) rest c' page
                (omega (arith, length-drop read_max ys)) (omega (arith, length-drop read_max ys))
                (rw (← step) r))
      ]

  scan_chunks_all :
      (c : F.Cells)
      → (scan_chunks F p capture 64 0 start c).0 ≡ 0
      → (scan_chunks F p capture 64 0 start c).1 ≡ seen capture (F.page p c)
  scan_chunks_all c r =
      let first : (scan_chunks F p capture 64 0 (seen capture []) c).0 ≡ 0 =
        rw (seen_nil capture) r in
      rw (← seen_nil capture) (
        scan_chunks-seen 64 [] (F.page p c) c refl (F.length-page p c)
          (omega (arith, F.length-page p c)) first)

  -- A scan changes no cell.
  pub scan_page-page :
      (m : Ram) (q : ℕ) (c : F.Cells) → F.page q (scan_page F p capture m c).2 ≡ F.page q c
  unfolding scan_page
  scan_page-page m q c = elim (Bool-cases ((scan_chunks F p capture 64 0 start c).0 == 0)) [
    | inl e ↦ rw e (scan_chunks-page 64 0 q start c)
    | inr e ↦ rw e (scan_chunks-page 64 0 q start c)
  ]

  -- The RAM after a scan that answers ok.
  unfoldable pub scanned : Ram → List ℕ → Ram
  scanned m xs = record m {
    pages = put (put m.pages p page_unchecked) p (state_of xs);
    reader = 0;
    generations = put m.generations p (generation_of xs);
    lengths = put m.lengths p (length_of xs);
    stage = staged (if capture then take max_record (drop 12 xs) else []) m.stage;
  }

  -- A scan that answers ok leaves the RAM that the bytes of the page determine: the page's state,
  -- generation and length, and with a capture the bytes from the twelfth on in the stage.
  pub scan_page_ok :
      (m : Ram) (c : F.Cells)
      → (scan_page F p capture m c).0 ≡ ok
      → (scan_page F p capture m c).1 ≡ scanned m (F.page p c)
  unfolding scan_page scanned state_of generation_of length_of seen view page_state
  scan_page_ok m c r = elim (Bool-cases ((scan_chunks F p capture 64 0 start c).0 == 0)) [
    | inl e ↦
        let all = scan_chunks_all c (==_true _ _ e) in
        let status = ==_true _ _ e in rw (e, all, status) refl
    | inr e ↦ let failed : read_failed ≡ ok = rw e at r in absurd cc
  ]

  -- A scan that does not answer ok has latched a fault.
  pub scan_page_failed :
      (m : Ram) (c : F.Cells)
      → (scan_page F p capture m c).0 ≢ ok
      → ((scan_page F p capture m c).0 ≡ read_failed)
        × ((scan_page F p capture m c).1.fault_latched ≡ read_failed)
  unfolding scan_page fault finish
  scan_page_failed m c r = elim (Bool-cases ((scan_chunks F p capture 64 0 start c).0 == 0)) [
    | inl e ↦ let fine : ok ≢ ok = rw e at r in absurd (fine refl)
    | inr e ↦ rw e (refl, refl)
  ]
