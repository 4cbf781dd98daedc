-- ===== src/NvRecord/Memory/Behaviour.antt =====
-- The flash in memory keeps what src/nv_record.c relies on beyond the laws of a flash: it carries out
-- what it does not refuse, and its torn erases are detected.
use cc2530_zigbee.Base.{
  ℕ, zero, suc, ◌+◌, ◌≤◌, ◌%◌, ◌≡◌, ◌≢◌, ◌⊎◌, refl, Bool, true, false, ◌&&◌, not, ◌==◌, List,
  length, arith, inl, inr,
}
use cc2530_zigbee.NvRecord.Flash.{page_size}
use cc2530_zigbee.NvRecord.Scan.{differs}
use cc2530_zigbee.NvRecord.Outcome.{IsDead, headless-IsDead}
use cc2530_zigbee.NvRecord.Replacing.{DetectsTears}
use cc2530_zigbee.NvRecord.Healthy.{IsHealthy}
use cc2530_zigbee.NvRecord.Memory.{
  Cells, memory, fits, admits, program_if, torn, erase_at, put_self,
}

abbrev pub is_fresh : ℕ → ℕ → Cells → Bool
is_fresh p o c = c.known p && not (c.attempted p o)

pub admitted :
    (p o : ℕ) (w : List ℕ) (l : ℕ) (c : Cells)
    → o % 4 ≡ 0
    → o + 4 ≤ page_size
    → length w ≡ 4
    → 2 ≤ l
    → not c.latched ≡ true
    → is_fresh p o c ≡ true
    → admits p o w l c ≡ true
unfolding admits fits
admitted p o w l c aligned room four enough ready new = ground arith

pub programmed :
    (p o : ℕ) (w : List ℕ) (l : ℕ) (c : Cells) (b : Bool) (f : admits p o w l c ≡ b)
    → b ≡ true
    → (program_if p o w l c b f).0 ≡ 0
unfolding program_if
programmed p o w l c true f h = refl
programmed p o w l c false f h = absurd cc

pub programmed_ready :
    (p o : ℕ) (w : List ℕ) (l : ℕ) (c : Cells) (b : Bool) (f : admits p o w l c ≡ b)
    → not c.latched ≡ true
    → not (program_if p o w l c b f).1.latched ≡ true
unfolding program_if
programmed_ready p o w l c true f h = h
programmed_ready p o w l c false f h = h

pub programmed_fresh :
    (p o : ℕ) (w : List ℕ) (l k : ℕ) (c : Cells) (b : Bool) (f : admits p o w l c ≡ b)
    → k ≢ o
    → is_fresh p k c ≡ true
    → is_fresh p k (program_if p o w l c b f).1 ≡ true
unfolding program_if
programmed_fresh p o w l k c true f ne h =
    let apart : (k == o) ≡ false = ground arith in
    let same : (p == p) ≡ true = ground arith in rw (same, apart) h
programmed_fresh p o w l k c false f ne h = h

pub erased : (p l : ℕ) (c : Cells) (b : Bool) → 2 ≤ l → not b ≡ true → (erase_at p l c b).0 ≡ 0
unfolding erase_at
erased p l c true enough h = absurd cc
erased p zero c false enough h = absurd (omega arith)
erased p (suc zero) c false enough h = absurd (omega arith)
erased p (suc (suc l)) c false enough h = refl

pub erased_ready :
    (p l : ℕ) (c : Cells) (b : Bool)
    → (erase_at p l c b).0 ≡ 0
    → not c.latched ≡ true
    → not (erase_at p l c b).1.latched ≡ true
unfolding erase_at
erased_ready p l c true e h = h
erased_ready p zero c false e h = h
erased_ready p (suc zero) c false e h = absurd (omega arith)
erased_ready p (suc (suc l)) c false e h = h

pub erased_fresh :
    (p l o : ℕ) (c : Cells) (b : Bool)
    → (erase_at p l c b).0 ≡ 0
    → is_fresh p o (erase_at p l c b).1 ≡ true
unfolding erase_at
erased_fresh p l o c true e = absurd (omega arith)
erased_fresh p zero o c false e = absurd (omega arith)
erased_fresh p (suc zero) o c false e = absurd (omega arith)
erased_fresh p (suc (suc l)) o c false e = let same : (p == p) ≡ true = ground arith in rw same refl

abbrev pub memory-IsHealthy : IsHealthy memory
memory-IsHealthy = record {
  budget = 2;
  ready = λ c. not c.latched;
  fresh = is_fresh;
  reads = λ p o n c low h h' ready. refl;
  ready-read = λ p o n c ready. ready;
  erases = λ p l c low enough ready. erased p l c c.latched enough ready;
  ready-erase = λ p l c e ready. erased_ready p l c c.latched e ready;
  fresh-erase = λ p l o c e. erased_fresh p l o c c.latched e;
  programs = λ p o w l c low aligned room four enough ready new.
      programmed p o w l c (admits p o w l c) refl
        (admitted p o w l c aligned room four enough ready new);
  ready-program = λ p o w l c e ready. programmed_ready p o w l c (admits p o w l c) refl ready;
  fresh-program = λ p o w l k c ne new. programmed_fresh p o w l k c (admits p o w l c) refl ne new;
}

torn-IsDead : (xs : List ℕ) → IsDead (torn xs)
unfolding torn differs
torn-IsDead xs = headless-IsDead (torn xs) refl

torn_detected :
    (p l : ℕ) (c : Cells) (b : Bool)
    → (erase_at p l c b).0 ≢ 0
    → ((erase_at p l c b).1.page p ≡ c.page p) ⊎ IsDead ((erase_at p l c b).1.page p)
unfolding erase_at
torn_detected p l c true h = inl refl
torn_detected p zero c false h = inl refl
torn_detected p (suc zero) c false h =
    inr (rw (put_self c.page p (torn (c.page p))) (torn-IsDead (c.page p)))
torn_detected p (suc (suc l)) c false h = absurd (h refl)

pub memory-DetectsTears : DetectsTears memory
memory-DetectsTears p l c h = torn_detected p l c c.latched h
