-- ===== src/NvRecord/Memory.antt =====
-- A flash whose pages are kept in memory, for the runs and witnesses of src/nv_record.c.
pub mod Behaviour
use cc2530_zigbee.Base.{
  ℕ, zero, suc, ◌+◌, ◌%◌, not, replicate, length-replicate, ◌≤◌, ◌≡◌, ◌≢◌, refl, ◌∙◌, Bool, true,
  false, ◌&&◌, ◌==◌, ==_true, leb, if◌then◌else◌, List, ◌++◌, length, take, drop, arith, Bool-cases,
  inl, inr, length-append, length-take, length-drop, take-append, drop-append, drop-append_ge,
}
use cc2530_zigbee.NvRecord.{put}
use cc2530_zigbee.NvRecord.Flash.{Flash, page_size}
use cc2530_zigbee.NvRecord.Filling.{blank}

pub record Cells : Type 0 where
  pub page : ℕ → List ℕ
  pub size : (p : ℕ) → length (page p) ≡ page_size
  -- The drivers' RAM: pages erased since the reset, words attempted since, and a latched failure.
  pub known : ℕ → Bool
  pub attempted : ℕ → ℕ → Bool
  pub latched : Bool

-- One page replaced.
abbrev pub with_page : (p : ℕ) (xs : List ℕ) → length xs ≡ page_size → Cells → Cells
with_page p xs h c = record c { page = put c.page p xs; size = λ q. resized q (q == p) }
  where
    resized : (q : ℕ) (b : Bool) → length (if b then xs else c.page q) ≡ page_size
    resized q true = h
    resized q false = c.size q

pub written : ℕ → List ℕ → List ℕ → List ℕ
written o w xs = take o xs ++ (w ++ drop (o + 4) xs)

pub fits : ℕ → List ℕ → Bool
fits o w = length w == 4 && leb (o + 4) page_size

pub length-written :
    (o : ℕ) (w xs : List ℕ)
    → fits o w ≡ true
    → length xs ≡ page_size
    → length (written o w xs) ≡ page_size
unfolding written fits
length-written o w xs f h =
    let four : length w ≡ 4 = ground arith in
    let room : o + 4 ≤ page_size = ground arith in
    omega (
      arith,
      length-append (take o xs) (w ++ drop (o + 4) xs),
      length-append w (drop (o + 4) xs),
      length-take o xs,
      length-drop (o + 4) xs,
    )

-- Is the word in range, with a limit that is enough, and not refused?
pub admits : ℕ → ℕ → List ℕ → ℕ → Cells → Bool
admits p o w l c =
    fits o w && o % 4 == 0 && leb 2 l && not c.latched && c.known p && not (c.attempted p o)

pub admits-fits :
    (p o : ℕ) (w : List ℕ) (l : ℕ) (c : Cells) → admits p o w l c ≡ true → fits o w ≡ true
unfolding admits
admits-fits p o w l c h = ground arith

abbrev pub attempt : ℕ → ℕ → Cells → Cells
attempt p o c = record c { attempted = λ q k. if q == p && k == o then true else c.attempted q k }

pub program_if :
    (p o : ℕ) (w : List ℕ) (l : ℕ) (c : Cells) (b : Bool) → admits p o w l c ≡ b → ℕ × Cells
program_if p o w l c true f = (
  0,
  attempt p o (
      with_page p (written o w (c.page p))
        (length-written o w (c.page p) (admits-fits p o w l c f) (c.size p)) c),
)
program_if p o w l c false f = (1, c)

-- A page of which the first 512 bytes are erased.
pub torn : List ℕ → List ℕ
torn xs = replicate 512 255 ++ drop 512 xs

pub length-torn : (xs : List ℕ) → length xs ≡ page_size → length (torn xs) ≡ page_size
unfolding torn
length-torn xs h = omega (
  arith,
  length-append (replicate 512 255) (drop 512 xs),
  length-replicate {A = ℕ} 512 255,
  length-drop 512 xs,
)

-- With a limit of 1 an erase does not come to its end.
pub erase_at : ℕ → ℕ → Cells → Bool → ℕ × Cells
erase_at p l c true = (1, c)
erase_at p zero c false = (1, c)
erase_at p (suc zero) c false = (
  6,
  record (with_page p (torn (c.page p)) (length-torn (c.page p) (c.size p)) c) {
    known = λ q. if q == p then false else c.known q;
    latched = true;
  },
)
erase_at p (suc (suc l)) c false = (
  0,
  record (with_page p blank refl c) {
    known = λ q. if q == p then true else c.known q;
    attempted = λ q k. if q == p then false else c.attempted q k;
  },
)

pub put_self : (f : ℕ → List ℕ) (p : ℕ) (xs : List ℕ) → put f p xs p ≡ xs
put_self f p xs = let e : (p == p) ≡ true = ground arith in rw e refl

pub put_ne : (f : ℕ → List ℕ) (p q : ℕ) (xs : List ℕ) → q ≢ p → put f p xs q ≡ f q
put_ne f p q xs ne = elim (Bool-cases (q == p)) [
  | inl e ↦ absurd (ne (==_true q p e))
  | inr e ↦ rw e refl
]

module _ (p o : ℕ) (w : List ℕ) (l : ℕ) (c : Cells) where
  pub program_ne :
      (q : ℕ)
      → q ≢ p
      → (b : Bool) (f : admits p o w l c ≡ b) → (program_if p o w l c b f).1.page q ≡ c.page q
  unfolding program_if
  program_ne q ne true f = put_ne c.page p q (written o w (c.page p)) ne
  program_ne q ne false f = refl

  pub program_take :
      (b : Bool) (f : admits p o w l c ≡ b)
      → take o ((program_if p o w l c b f).1.page p) ≡ take o (c.page p)
  unfolding program_if written fits
  program_take true f =
      let fit = admits-fits p o w l c f in
      let room : o + 4 ≤ page_size = ground arith in
      rw (put_self c.page p (written o w (c.page p))) (
        take-append (take o (c.page p)) (w ++ drop (o + 4) (c.page p)) o
          (omega (arith, length-take o (c.page p), c.size p)))
  program_take false f = refl

  pub program_drop :
      (b : Bool) (f : admits p o w l c ≡ b)
      → drop (o + 4) ((program_if p o w l c b f).1.page p) ≡ drop (o + 4) (c.page p)
  unfolding program_if written fits
  program_drop true f =
      let fit = admits-fits p o w l c f in
      let four : length w ≡ 4 = ground arith in
      let room : o + 4 ≤ page_size = ground arith in
      rw (put_self c.page p (written o w (c.page p))) (
        drop-append_ge (o + 4) 4 (take o (c.page p)) (w ++ drop (o + 4) (c.page p))
          (omega (arith, length-take o (c.page p), c.size p))
        ∙ drop-append w (drop (o + 4) (c.page p)) 4 four)
  program_drop false f = refl

  pub program_whole :
      (b : Bool) (f : admits p o w l c ≡ b)
      → (program_if p o w l c b f).0 ≡ 0
      → (program_if p o w l c b f).1.page p ≡ take o (c.page p) ++ (w ++ drop (o + 4) (c.page p))
  unfolding program_if written
  program_whole true f h = put_self c.page p (written o w (c.page p))
  program_whole false f h = absurd (omega arith)

pub erase_ne : (p l q : ℕ) (c : Cells) (b : Bool) → q ≢ p → (erase_at p l c b).1.page q ≡ c.page q
unfolding erase_at
erase_ne p l q c true ne = refl
erase_ne p zero q c false ne = refl
erase_ne p (suc zero) q c false ne = put_ne c.page p q (torn (c.page p)) ne
erase_ne p (suc (suc l)) q c false ne = put_ne c.page p q blank ne

pub erase_whole :
    (p l : ℕ) (c : Cells) (b : Bool)
    → (erase_at p l c b).0 ≡ 0
    → (erase_at p l c b).1.page p ≡ replicate page_size 255
unfolding erase_at
erase_whole p l c true h = absurd (omega arith)
erase_whole p zero c false h = absurd (omega arith)
erase_whole p (suc zero) c false h = absurd (omega arith)
erase_whole p (suc (suc l)) c false h = put_self c.page p blank

-- Calls that are not refused succeed, but for an erase with a limit of 1.
abbrev pub memory : Flash
memory = record {
  Cells = Cells;
  page = λ p c. c.page p;
  read = λ p o n c. (0, take n (drop o (c.page p)), c);
  program = λ p o w l c. program_if p o w l c (admits p o w l c) refl;
  erase = λ p l c. erase_at p l c c.latched;
  reset = λ c. record c { known = λ p. false; attempted = λ p o. false; latched = false };
  length-page = λ p c. c.size p;
  page-read = λ p o n q c. refl;
  read_ok = λ p o n c h. refl;
  page-program_ne = λ p o w l q c ne. program_ne p o w l c q ne (admits p o w l c) refl;
  take-program = λ p o w l c. program_take p o w l c (admits p o w l c) refl;
  drop-program = λ p o w l c. program_drop p o w l c (admits p o w l c) refl;
  program_ok = λ p o w l c h four. program_whole p o w l c (admits p o w l c) refl h;
  page-erase_ne = λ p l q c ne. erase_ne p l q c c.latched ne;
  erase_ok = λ p l c h. erase_whole p l c c.latched h;
  page-reset = λ p c. refl;
}

-- Both pages erased.
abbrev pub erased_cells : Cells
erased_cells = record {
  page = λ p. blank;
  size = λ p. refl;
  known = λ p. false;
  attempted = λ p o. false;
  latched = false;
}
