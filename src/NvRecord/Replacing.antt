-- ===== src/NvRecord/Replacing.antt =====
-- `nv_record_replace` of src/nv_record.c replaces the record, or leaves it.
use cc2530_zigbee.Base.{
  ℕ, ◌+◌, ◌^◌, ◌≤◌, ◌<◌, ◌≡◌, ◌≢◌, ◌⊎◌, refl, sym, ap, ◌∙◌, Bool, false, ◌&&◌, ◌==◌, ==_true, none,
  some, List, [], ◌∷◌, length, true, arith, Bool-cases, inl, inr, u8, u32,
}
use cc2530_zigbee.NvRecord.{
  Result, ok, write_failed, Ram, is_ok, put, fault, finish, max_record, is_valid, is_unsupported,
}
use cc2530_zigbee.NvRecord.Flash.{Flash}
use cc2530_zigbee.NvRecord.Scan.{staged}
use cc2530_zigbee.NvRecord.Replace.{erase_and_write}
use cc2530_zigbee.NvRecord.Record.{chosen, record_of}
use cc2530_zigbee.NvRecord.Selection.{IsSound, image}
use cc2530_zigbee.NvRecord.Loading.{IsClean, record_of_taken, unknown, finish-IsClean, finish_phase}
use cc2530_zigbee.NvRecord.NewPage.{
  new_page, generation_of-new_page, length_of-new_page, body_of-new_page,
}
use cc2530_zigbee.NvRecord.Outcome.{IsDead, passes}
use cc2530_zigbee.NvRecord.Read.{state_of}
use cc2530_zigbee.NvRecord.Attempt.{Attempted}
use cc2530_zigbee.NvRecord.Attempts.{write_Attempted}

list_cases : (xs ys : List ℕ) → (xs ≡ ys) ⊎ (xs ≢ ys)
list_cases [] [] = inl refl
list_cases [] (y ∷ ys) = inr (λ e. absurd cc)
list_cases (x ∷ xs) [] = inr (λ e. absurd cc)
list_cases (x ∷ xs) (y ∷ ys) = elim (Bool-cases (x == y)) [
  | inr d ↦ inr (λ e. let heads : x ≡ y = cc in absurd (ground arith))
  | inl h ↦ elim (list_cases xs ys) [
    | inl t ↦ let head : x ≡ y = ==_true x y h in inl (rw (head, t) refl)
    | inr ne ↦ inr (λ e. let tails : xs ≡ ys = cc in absurd (ne tails))
  ]
]

dead_cases : (xs : List ℕ) → IsDead xs ⊎ (passes xs ≡ true)
unfolding passes
dead_cases xs = elim (Bool-cases (is_valid (state_of xs))) [
  | inl v ↦ inr (rw v refl)
  | inr v ↦ elim (Bool-cases (is_unsupported (state_of xs))) [
    | inl u ↦ inr (rw (v, u) refl)
    | inr u ↦ inl (v, u)
  ]
]

-- The pages after an erase that has failed and has left its page changed, and yet such that a scan
-- judges it a page of the journal.
pub record Torn (F : Flash) (page : ℕ → List ℕ) (o : Result × Ram × F.Cells) : Type 0 where
  pub torn_page : ℕ
  pub budget : ℕ
  pub before : F.Cells
  pub pages_before : image F before ≡ page
  pub failed : (F.erase torn_page budget before).0 ≢ 0
  pub left : o.2 ≡ (F.erase torn_page budget before).1
  pub answered : o.0 ≡ write_failed
  pub stopped : o.1.phase ≡ 3
  pub others : (q : ℕ) → q ≢ torn_page → F.page q o.2 ≡ page q
  pub changed : F.page torn_page o.2 ≢ page torn_page
  pub accepted : passes (F.page torn_page o.2) ≡ true
  -- It is not the page of the record.
  pub spared : (record_of page ≡ none) ⊎ (torn_page ≢ (chosen page).1)

-- A scan detects what an erase that fails leaves of its page, if it leaves it changed.
abbrev pub DetectsTears : Flash → Type 0
DetectsTears F =
    (p l : ℕ) (c : F.Cells)
    → (F.erase p l c).0 ≢ 0
    → (F.page p (F.erase p l c).1 ≡ F.page p c) ⊎ IsDead (F.page p (F.erase p l c).1)

pub dead_refused : (xs : List ℕ) → IsDead xs → passes xs ≢ true
unfolding passes
dead_refused xs (v, u) = rw (v, u) (λ e. absurd cc)

not_same : (a b : ℕ) → (a == b) ≡ false → a ≢ b
not_same a b h e = ground arith

failed_phase :
    (m : Ram)
    → m.phase ≡ 3
    → ((fault write_failed m).phase == 8 && is_ok (fault write_failed m).result) ≡ false
unfolding fault finish
failed_phase m h = ground arith

fault-phase : (r : Result) (m : Ram) → (fault r m).phase ≡ m.phase
unfolding fault finish
fault-phase r m = refl

failed-IsClean : (m : Ram) → IsClean (fault write_failed m)
unfolding fault finish
failed-IsClean m = refl

module _ (F : Flash) (page : ℕ → List ℕ) (data' : List ℕ) where
  -- What holds of the end of a replacement.
  pub record Replaced (o : Result × Ram × F.Cells) : Type 0 where
    pub sound : IsSound (image F o.2) o.1
    pub clean : IsClean o.1
    pub replaced :
        o.0 ≡ ok → (record_of (image F o.2) ≡ some (o.1.generation, data')) × (o.1.generation ≢ 0)
    pub atomic :
        (record_of (image F o.2) ≡ record_of page)
        ⊎ (((g : ℕ) × (record_of (image F o.2) ≡ some (g, data'))) ⊎ Torn F page o)

  -- An exit before the erase.
  pub exit_Replaced :
      (r : Result) (m : Ram) (c : F.Cells)
      → image F c ≡ page
      → is_ok r ≡ false
      → IsSound (image F c) m
      → IsClean m
      → Replaced (r, m, c)
  exit_Replaced r m c im e s k = record {
    sound = s;
    clean = k;
    replaced = λ z. absurd (ground arith);
    atomic = inl (ap record_of im);
  }

  pub finish_Replaced :
      (r : Result) (m : Ram) (c : F.Cells)
      → image F c ≡ page
      → is_ok r ≡ false
      → IsClean m
      → Replaced (r, finish r m, c)
  finish_Replaced r m c im e k =
      exit_Replaced r (finish r m) c im e (unknown (image F c) (finish r m) (finish_phase r m e))
        (finish-IsClean r m k)

  module _ (p g : ℕ) (low : length data' ≢ 0) (high : length data' ≤ max_record)
      (small : g < 2 ^ 32) (positive : g ≢ 0) where
    -- The pages with page `p` written.
    abbrev pub Beside : (ℕ → List ℕ) → Type 0
    Beside page' = (q : ℕ) → q ≢ p → page' q ≡ page q

    record_of-new :
        (page' : ℕ → List ℕ)
        → chosen page' ≡ (ok, p)
        → page' p ≡ new_page data' g
        → record_of page' ≡ some (g, data')
    record_of-new page' q e =
        record_of_taken page' ok p q refl
        ∙ (rw
            (
              e,
              generation_of-new_page data' g low high small positive,
              body_of-new_page data' g low high small positive,
            )
            refl)

    module _
        (dead_keeps : (page' : ℕ → List ℕ)
          → Beside page'
          → IsDead (page' p)
          → record_of page' ≡ record_of page)
        (new_wins : (page' : ℕ → List ℕ)
          → Beside page'
          → page' p ≡ new_page data' g
          → chosen page' ≡ (ok, p))
        (spared : (record_of page ≡ none) ⊎ (p ≢ (chosen page).1)) where
      attempt_Replaced :
          (has : Bool) (o : Result × Ram × F.Cells) → Attempted F p page data' g has o → Replaced o
      attempt_Replaced has o a = record {
        sound = λ known.
            let (new, r, s, gen, len) = a.finished (ground arith) in
            (rw s (
              new_wins (image F o.2) a.others new,
              gen ∙ sym (rw new (generation_of-new_page data' g low high small positive)),
              len ∙ sym (rw new (length_of-new_page data' g low high small positive)),
            ));
        clean = a.clean;
        replaced = λ e.
            let (new, r, s, gen, len) = a.finished (ground arith) in
            (
              rw gen (record_of-new (image F o.2) (new_wins (image F o.2) a.others new) new),
              rw gen positive,
            );
        atomic = split a.attempt;
      }
        where
          split :
              IsDead (F.page p o.2) ⊎ (F.page p o.2 ≡ new_page data' g)
              → (record_of (image F o.2) ≡ record_of page)
                ⊎ (((g' : ℕ) × (record_of (image F o.2) ≡ some (g', data'))) ⊎ Torn F page o)
          split (inl d) = inl (dead_keeps (image F o.2) a.others d)
          split (inr e) =
              inr (inl (g, record_of-new (image F o.2) (new_wins (image F o.2) a.others e) e))

      -- From the erase on, when a dead page keeps the record and the new page becomes the choice.
      pub erase_Replaced :
          (limit : ℕ) (m : Ram) (c : F.Cells)
          → image F c ≡ page
          → IsClean m
          → u32 (m.generation + 1) ≡ g
          → Replaced (erase_and_write F p data' limit m c)
      unfolding erase_and_write
      erase_Replaced limit m c im k gen = elim (Bool-cases (status == 0)) [
        | inl e ↦
            rw (e, gen)
              (attempt_Replaced m.has_recovered _ (
                write_Attempted F p page data' g m.has_recovered limit m1 c1 high others
                  (F.erase_ok p limit c (==_true _ _ e)) k gen refl))
        | inr e ↦ rw e (record {
          sound = unknown (image F c1) (fault write_failed m1) (failed_phase m1 refl);
          clean = failed-IsClean m1;
          replaced = λ z. absurd cc;
          atomic = stays e;
        })
      ]
        where
          status : ℕ
          status = (F.erase p limit c).0

          c1 : F.Cells
          c1 = (F.erase p limit c).1

          m1 : Ram
          m1 = record m {
            stage = staged data' m.stage;
            phase = 3;
            erase_attempts = put m.erase_attempts p (u8 (m.erase_attempts p + 1));
            writer = status;
          }

          others : (q : ℕ) → q ≢ p → F.page q c1 ≡ page q
          others q ne = F.page-erase_ne p limit q c ne ∙ (λ i. im i q)

          all_same : F.page p c1 ≡ page p → (q : ℕ) → F.page q c1 ≡ page q
          all_same e q = elim (Bool-cases (q == p)) [
            | inl z ↦ let here : q ≡ p = ==_true q p z in rw here e
            | inr z ↦ others q (not_same q p z)
          ]

          stays :
              (status == 0) ≡ false
              → (record_of (image F c1) ≡ record_of page)
                ⊎ (((g' : ℕ) × (record_of (image F c1) ≡ some (g', data')))
                    ⊎ Torn F page (write_failed, fault write_failed m1, c1))
          stays e = elim (list_cases (F.page p c1) (page p)) [
            | inl same ↦ inl (ap record_of (λ i q. all_same same q i))
            | inr ne ↦ elim (dead_cases (F.page p c1)) [
              | inl d ↦ inl (dead_keeps (image F c1) others d)
              | inr a ↦ inr (
                  inr (record {
                    torn_page = p;
                    budget = limit;
                    before = c;
                    pages_before = im;
                    failed = not_same status 0 e;
                    left = refl;
                    answered = refl;
                    stopped = fault-phase write_failed m1;
                    others = others;
                    changed = ne;
                    accepted = a;
                    spared = spared;
                  }))
            ]
          ]
