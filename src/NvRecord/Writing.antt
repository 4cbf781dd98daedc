-- ===== src/NvRecord/Writing.antt =====
-- The programs of `nv_record_replace` of src/nv_record.c, word by word.
use cc2530_zigbee.Base.{
  ℕ, zero, suc, ◌+◌, ◌-◌, ◌*◌, ◌≤◌, ◌≡◌, ◌≢◌, refl, sym, ap, ◌∙◌, ◌==◌, ==_true, List, [], ◌∷◌,
  ◌++◌, length, take, drop, replicate, get_or, arith, Bool-cases, inl, inr, length-append,
  length-take, length-replicate, take-append, drop-append_ge, take-sum, drop-drop, drop-cons,
  append_assoc,
}
use cc2530_zigbee.NvRecord.{ok, write_failed, Ram, is_ok, fault, finish}
use cc2530_zigbee.NvRecord.Flash.{Flash}
use cc2530_zigbee.NvRecord.Replace.{program, program_body, word_at}
use cc2530_zigbee.NvRecord.Selection.{is_ok_elim, not_ok}
use cc2530_zigbee.NvRecord.Loading.{IsClean}

-- The fields that a program does not touch.
abbrev pub Same : Ram → Ram → Type 0
Same m m' =
    (m'.phase ≡ m.phase)
    × (m'.generation ≡ m.generation)
    × (m'.has_recovered ≡ m.has_recovered)
    × (IsClean m → IsClean m')

pub Same-trans : (m m' m'' : Ram) → Same m m' → Same m' m'' → Same m m''
Same-trans m m' m'' (f, g, y, k) (f', g', y', k') = (f' ∙ f, g' ∙ g, y' ∙ y, λ h. k' (k h))

length-word_at : (content : List ℕ) (o : ℕ) → length (word_at content o) ≡ 4
unfolding word_at
length-word_at content o = refl

get_or-padded : (xs : List ℕ) (r i : ℕ) → get_or (xs ++ replicate r 255) i 255 ≡ get_or xs i 255
get_or-padded [] zero i = refl
get_or-padded [] (suc r) zero = refl
get_or-padded [] (suc r) (suc i) = get_or-padded [] r i ∙ refl
get_or-padded (x ∷ xs) r zero = refl
get_or-padded (x ∷ xs) r (suc i) = get_or-padded xs r i

-- A word of the content and its padding.
word_at-take :
    (content : List ℕ) (r o : ℕ)
    → o + 4 ≤ length content + r
    → take 4 (drop o (content ++ replicate r 255)) ≡ word_at content o
unfolding word_at
word_at-take content r o h =
    let w = content ++ replicate r 255 in
    let one : o + 1 ≡ suc o = omega arith in
    let two : o + 2 ≡ suc (suc o) = omega arith in
    let three : o + 3 ≡ suc (suc (suc o)) = omega arith in
    let len : length w ≡ length content + r =
      omega (arith, length-append content (replicate r 255), length-replicate {A = ℕ} r 255) in
    rw
      (
        drop-cons o w 255 (omega arith),
        drop-cons (suc o) w 255 (omega arith),
        drop-cons (suc (suc o)) w 255 (omega arith),
        drop-cons (suc (suc (suc o))) w 255 (omega arith),
        get_or-padded content r o,
        get_or-padded content r (suc o),
        get_or-padded content r (suc (suc o)),
        get_or-padded content r (suc (suc (suc o))),
        one,
        two,
        three,
      )
      refl

-- The next word behind a prefix.
next_word :
    (w e : List ℕ) (o : ℕ)
    → o + 4 ≤ length w
    → take o (take o w ++ drop o e) ++ (take 4 (drop o w) ++ drop (o + 4) (take o w ++ drop o e))
      ≡ take (o + 4) w ++ drop (o + 4) e
next_word w e o h =
    let a : length (take o w) ≡ o = omega (arith, length-take o w) in
    rw
      (
        take-append (take o w) (drop o e) o a,
        drop-append_ge (o + 4) 4 (take o w) (drop o e) (omega (arith, a)),
        drop-drop (o + 4) o 4 e refl,
        take-sum (o + 4) o 4 w refl,
      )
      (sym (append_assoc (take o w) (take 4 (drop o w)) (drop (o + 4) e)))

module _ (F : Flash) (p limit : ℕ) where
  -- A program leaves the other page alone, and the words behind it.
  pub program-other :
      (o q : ℕ) (w : List ℕ) (m : Ram) (c : F.Cells)
      → q ≢ p
      → F.page q (program F p o w limit m c).2 ≡ F.page q c
  unfolding program
  program-other o q w m c ne = elim (Bool-cases ((F.program p o w limit c).0 == 0)) [
    | inl e ↦ rw e (F.page-program_ne p o w limit q c ne)
    | inr e ↦ rw e (F.page-program_ne p o w limit q c ne)
  ]

  pub program-behind :
      (o : ℕ) (w : List ℕ) (m : Ram) (c : F.Cells)
      → drop (o + 4) (F.page p (program F p o w limit m c).2) ≡ drop (o + 4) (F.page p c)
  unfolding program
  program-behind o w m c = elim (Bool-cases ((F.program p o w limit c).0 == 0)) [
    | inl e ↦ rw e (F.drop-program p o w limit c)
    | inr e ↦ rw e (F.drop-program p o w limit c)
  ]

  pub take-program :
      (o : ℕ) (w : List ℕ) (m : Ram) (c : F.Cells)
      → take o (F.page p (program F p o w limit m c).2) ≡ take o (F.page p c)
  unfolding program
  take-program o w m c = elim (Bool-cases ((F.program p o w limit c).0 == 0)) [
    | inl e ↦ rw e (F.take-program p o w limit c)
    | inr e ↦ rw e (F.take-program p o w limit c)
  ]

  pub program_done :
      (o : ℕ) (w : List ℕ) (m : Ram) (c : F.Cells)
      → (program F p o w limit m c).0 ≡ ok
      → length w ≡ 4
      → F.page p (program F p o w limit m c).2
        ≡ take o (F.page p c) ++ (w ++ drop (o + 4) (F.page p c))
  unfolding program
  program_done o w m c r h = elim (Bool-cases ((F.program p o w limit c).0 == 0)) [
    | inl e ↦ rw e (F.program_ok p o w limit c (==_true _ _ e) h)
    | inr e ↦ let failed : write_failed ≡ ok = rw e at r in absurd cc
  ]

  pub program_failed :
      (o : ℕ) (w : List ℕ) (m : Ram) (c : F.Cells)
      → (program F p o w limit m c).0 ≢ ok
      → ((program F p o w limit m c).0 ≡ write_failed)
        × ((program F p o w limit m c).1.fault_latched ≡ write_failed)
  unfolding program fault finish
  program_failed o w m c r = elim (Bool-cases ((F.program p o w limit c).0 == 0)) [
    | inl e ↦ let fine : ok ≢ ok = rw e at r in absurd (fine refl)
    | inr e ↦ rw e (refl, refl)
  ]

  pub program-Same :
      (o : ℕ) (w : List ℕ) (m : Ram) (c : F.Cells) → Same m (program F p o w limit m c).1
  unfolding program fault finish
  program-Same o w m c = elim (Bool-cases ((F.program p o w limit c).0 == 0)) [
    | inl e ↦ rw e (refl, refl, refl, λ h. h)
    | inr e ↦ rw e (refl, refl, refl, λ h. refl)
  ]

  module _ (content : List ℕ) where
    pub body-Same :
        (n o : ℕ) (m : Ram) (c : F.Cells) → Same m (program_body F p content limit n o m c).1
    unfolding program_body
    body-Same zero o m c = (refl, refl, refl, λ h. h)
    body-Same (suc n) o m c =
        let step = program F p o (word_at content o) limit m c in
        let here = program-Same o (word_at content o) m c in
        elim (Bool-cases (is_ok step.0)) [
          | inl e ↦ rw e (
              Same-trans m step.1 (program_body F p content limit n (o + 4) step.1 step.2).1 here
                (body-Same n (o + 4) step.1 step.2))
          | inr e ↦ rw e here
        ]

    -- A loop that stops has latched the failure.
    pub body_failed :
        (n o : ℕ) (m : Ram) (c : F.Cells)
        → (program_body F p content limit n o m c).0 ≢ ok
        → (program_body F p content limit n o m c).1.fault_latched ≡ write_failed
    unfolding program_body
    body_failed zero o m c h = absurd (h refl)
    body_failed (suc n) o m c h =
        let step = program F p o (word_at content o) limit m c in
        elim (Bool-cases (is_ok step.0)) [
          | inl e ↦
              let h' : (program_body F p content limit n (o + 4) step.1 step.2).0 ≢ ok =
                rw e at h in
              rw e (body_failed n (o + 4) step.1 step.2 h')
          | inr e ↦ rw e (program_failed o (word_at content o) m c (not_ok _ e)).1
        ]

    pub body-other :
        (n o q : ℕ) (m : Ram) (c : F.Cells)
        → q ≢ p
        → F.page q (program_body F p content limit n o m c).2 ≡ F.page q c
    unfolding program_body
    body-other zero o q m c ne = refl
    body-other (suc n) o q m c ne =
        let step = program F p o (word_at content o) limit m c in
        elim (Bool-cases (is_ok step.0)) [
          | inl e ↦ rw e (
              body-other n (o + 4) q step.1 step.2 ne
              ∙ program-other o q (word_at content o) m c ne)
          | inr e ↦ rw e (program-other o q (word_at content o) m c ne)
        ]

    -- The bytes from `k` on stay.
    pub body-behind :
        (n o k : ℕ) (m : Ram) (c : F.Cells)
        → o + 4 * n ≤ k
        → drop k (F.page p (program_body F p content limit n o m c).2) ≡ drop k (F.page p c)
    unfolding program_body
    body-behind zero o k m c h = refl
    body-behind (suc n) o k m c h =
        let step = program F p o (word_at content o) limit m c in
        let here : drop k (F.page p step.2) ≡ drop k (F.page p c) =
          sym (drop-drop k (o + 4) (k - (o + 4)) (F.page p step.2) (omega arith))
          ∙ ap (drop (k - (o + 4))) (program-behind o (word_at content o) m c)
          ∙ drop-drop k (o + 4) (k - (o + 4)) (F.page p c) (omega arith) in
        elim (Bool-cases (is_ok step.0)) [
          | inl e ↦ rw e (body-behind n (o + 4) k step.1 step.2 (omega arith) ∙ here)
          | inr e ↦ rw e here
        ]

    -- All rounds done, the page holds the content, padded, up to the last word.
    pub body_done :
        (r : ℕ) (e : List ℕ) (n o : ℕ) (m : Ram) (c : F.Cells)
        → o + 4 * n ≤ length content + r
        → F.page p c ≡ take o (content ++ replicate r 255) ++ drop o e
        → (program_body F p content limit n o m c).0 ≡ ok
        → F.page p (program_body F p content limit n o m c).2
          ≡ take (o + 4 * n) (content ++ replicate r 255) ++ drop (o + 4 * n) e
    unfolding program_body
    body_done r e zero o m c h q good = let z : o + 4 * 0 ≡ o = omega arith in rw z q
    body_done r e (suc n) o m c h q good =
        elim (Bool-cases (is_ok (program F p o (word_at content o) limit m c).0)) [
          | inr bad ↦
              let failed = (program_failed o (word_at content o) m c (not_ok _ bad)).1 in
              let result : (program F p o (word_at content o) limit m c).1.fault_latched ≡ ok =
                rw bad at good in
              absurd (ground arith)
          | inl fine ↦
              let w = content ++ replicate r 255 in
              let step = program F p o (word_at content o) limit m c in
              let size : length w ≡ length content + r =
                omega (
                  arith,
                  length-append content (replicate r 255),
                  length-replicate {A = ℕ} r 255,
                ) in
              let word : take 4 (drop o w) ≡ word_at content o =
                word_at-take content r o (omega arith) in
              let page : F.page p step.2 ≡ take (o + 4) w ++ drop (o + 4) e =
                program_done o (word_at content o) m c (is_ok_elim _ fine)
                  (length-word_at content o)
                ∙ (rw (q, ← word) (next_word w e o (omega arith))) in
              let rest : (program_body F p content limit n (o + 4) step.1 step.2).0 ≡ ok =
                rw fine at good in
              let end_ : o + 4 * suc n ≡ o + 4 + 4 * n = omega arith in
              rw (fine, end_) (body_done r e n (o + 4) step.1 step.2 (omega arith) page rest)
        ]
