-- ===== src/NvRecord/Attempts.antt =====
-- The whole write of a page by `nv_record_replace` of src/nv_record.c.
use cc2530_zigbee.Base.{
  ℕ, ◌+◌, ◌-◌, ◌*◌, ◌/◌, ◌≤◌, ◌≡◌, ◌≢◌, refl, ap, ◌∙◌, Bool, List, ◌++◌, length, take, drop,
  replicate, arith, Bool-cases, inl, inr, u32, length-append, take-append, append_assoc,
}
use cc2530_zigbee.NvRecord.{Result, ok, write_failed, Ram, is_ok, max_record}
use cc2530_zigbee.NvRecord.Flash.{Flash}
use cc2530_zigbee.NvRecord.Replace.{program, program_body, new_header, new_crc, write_new}
use cc2530_zigbee.NvRecord.Selection.{is_ok_elim, not_ok}
use cc2530_zigbee.NvRecord.Loading.{IsClean}
use cc2530_zigbee.NvRecord.NewPage.{front, length-front, length-new_header, length-new_crc}
use cc2530_zigbee.NvRecord.Outcome.{IsDead}
use cc2530_zigbee.NvRecord.Writing.{
  Same, program-other, program-behind, program_done, program_failed, program-Same, body-other,
  body-behind, body_done, body_failed, body-Same,
}
use cc2530_zigbee.NvRecord.Filling.{blank, blank-IsDead, filled, front_of}
use cc2530_zigbee.NvRecord.Attempt.{Attempted, stop_Attempted, commit_Attempted}

-- Between its last two words a page that was erased holds all but the commit word.
pub written_front :
    (F : Flash) (p : ℕ) (data' : List ℕ) (g limit : ℕ) (m m' : Ram) (c : F.Cells)
    → length data' ≤ max_record
    → F.page p c ≡ blank
    → (program_body F p
        (new_header (length data') g ++ data')
        limit
        ((12 + length data' + 3) / 4)
        0
        m
        c).0
      ≡ ok
    → (program F p 2040
        (new_crc (new_header (length data') g) data')
        limit
        m'
        (program_body F p
          (new_header (length data') g ++ data')
          limit
          ((12 + length data' + 3) / 4)
          0
          m
          c).2).0
      ≡ ok
    → take 2044 (
        F.page p
          (program F p 2040
            (new_crc (new_header (length data') g) data')
            limit
            m'
            (program_body F p
              (new_header (length data') g ++ data')
              limit
              ((12 + length data' + 3) / 4)
              0
              m
              c).2).2)
      ≡ front data' g ++ new_crc (new_header (length data') g) data'
unfolding front
written_front F p data' g limit m m' c size e r r2 =
    ap (take 2044) (program_done F p limit 2040 crc m' body.2 r2 (length-new_crc head data'))
    ∙ (rw (start, ← append_assoc (front data' g) crc (drop 2044 (F.page p body.2)))
        (take-append (front data' g ++ crc) _ 2044 both))
  where
    head : List ℕ
    head = new_header (length data') g

    crc : List ℕ
    crc = new_crc head data'

    content : List ℕ
    content = head ++ data'

    long : length content ≡ 12 + length data'
    long = omega (arith, length-append head data', length-new_header (length data') g)

    n : ℕ
    n = (12 + length data' + 3) / 4

    body : Result × Ram × F.Cells
    body = program_body F p content limit n 0 m c

    padded : List ℕ
    padded = content ++ replicate (2036 - length data') 255

    done : F.page p body.2 ≡ padded
    done =
        let z : 0 + 4 * n ≡ 4 * n = omega arith in
        body_done F p limit content (2036 - length data') blank n 0 m c (omega (arith, long)) e r
        ∙ (rw z (
            filled content (2036 - length data') (4 * n) (omega (arith, long)) (omega (arith, long))
              (omega (arith, long))))

    start : take 2040 (F.page p body.2) ≡ front data' g
    start = ap (take 2040) done ∙ front_of head data' (length-new_header (length data') g) size

    both : length (front data' g ++ crc) ≡ 2044
    both = omega (
      arith,
      length-append (front data' g) crc,
      length-front data' g size,
      length-new_crc head data',
    )

module _ (F : Flash) (p : ℕ) (page : ℕ → List ℕ) (data' : List ℕ) (g : ℕ) (has : Bool) where
  -- From an erased page on.
  pub write_Attempted :
      (limit : ℕ) (m : Ram) (c : F.Cells)
      → length data' ≤ max_record
      → ((q : ℕ) → q ≢ p → F.page q c ≡ page q)
      → F.page p c ≡ blank
      → IsClean m
      → u32 (m.generation + 1) ≡ g
      → m.has_recovered ≡ has
      → Attempted F p page data' g has (
          write_new F p
            (new_header (length data') g)
            data'
            (new_crc (new_header (length data') g) data')
            limit
            m
            c)
  unfolding write_new front
  write_Attempted limit m c size o e k gen y = elim (Bool-cases (is_ok body.0)) [
    | inr bad ↦
        let latched : body.1.fault_latched ≡ write_failed =
          body_failed F p limit content n 0 m4 c (not_ok _ bad) in
        rw bad (
          stop_Attempted F p page data' g has body.1.fault_latched body.1 body.2 others1 (inl dead1)
            (kept1.3 k) (rw latched refl) (rw kept1.0 refl))
    | inl good ↦ elim (Bool-cases (is_ok step.0)) [
      | inr bad ↦
          let latched : step.1.fault_latched ≡ write_failed =
            (program_failed F p limit 2040 crc m5 body.2 (not_ok _ bad)).1 in
          rw (good, bad)
            (stop_Attempted F p page data' g has step.1.fault_latched step.1 step.2 others2
              (inl dead2) (kept2.3 (kept1.3 k)) (rw latched refl) (rw kept2.0 refl))
      | inl good2 ↦
          rw (good, good2)
            (commit_Attempted F p page data' g has limit step.1 step.2 others2
              (written_front F p data' g limit m4 m5 c size e (is_ok_elim _ good)
                (is_ok_elim _ good2))
              (kept2.3 (kept1.3 k)) (rw (kept2.1, kept1.1) gen) (kept2.2 ∙ kept1.2 ∙ y))
    ]
  ]
    where
      head : List ℕ
      head = new_header (length data') g

      crc : List ℕ
      crc = new_crc head data'

      content : List ℕ
      content = head ++ data'

      n : ℕ
      n = (12 + length data' + 3) / 4

      m4 : Ram
      m4 = record m { phase = 4 }

      body : Result × Ram × F.Cells
      body = program_body F p content limit n 0 m4 c

      kept1 : Same m4 body.1
      kept1 = body-Same F p limit content n 0 m4 c

      others1 : (q : ℕ) → q ≢ p → F.page q body.2 ≡ page q
      others1 q ne = body-other F p limit content n 0 q m4 c ne ∙ o q ne

      behind1 : drop 2044 (F.page p body.2) ≡ drop 2044 blank
      behind1 = body-behind F p limit content n 0 2044 m4 c (omega arith) ∙ ap (drop 2044) e

      dead1 : IsDead (F.page p body.2)
      dead1 = blank-IsDead (F.page p body.2) (F.length-page p body.2) behind1

      m5 : Ram
      m5 = record body.1 { phase = 5 }

      step : Result × Ram × F.Cells
      step = program F p 2040 crc limit m5 body.2

      kept2 : Same m5 step.1
      kept2 = program-Same F p limit 2040 crc m5 body.2

      others2 : (q : ℕ) → q ≢ p → F.page q step.2 ≡ page q
      others2 q ne = program-other F p limit 2040 q crc m5 body.2 ne ∙ others1 q ne

      dead2 : IsDead (F.page p step.2)
      dead2 =
          blank-IsDead (F.page p step.2) (F.length-page p step.2)
            (program-behind F p limit 2040 crc m5 body.2 ∙ behind1)
