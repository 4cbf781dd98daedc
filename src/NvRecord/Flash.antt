-- ===== src/NvRecord/Flash.antt =====
-- What the journal relies on of src/flash.c and src/flash_write.c: two pages of 2048 bytes behind
-- three calls. A call's status is 0 for FLASH_OK and FLASH_WRITE_OK.
use cc2530_zigbee.Base.{ℕ, ◌+◌, ◌≡◌, ◌≢◌, List, [], ◌∷◌, ◌++◌, length, take, drop, replicate}

-- `FLASH_PAGE_SIZE`, `FLASH_READ_MAX`
abbrev pub page_size : ℕ
page_size = 2048

abbrev pub read_max : ℕ
read_max = 32

-- `commit`, the word that is programmed last
abbrev pub commit_word : List ℕ
commit_word = 0x43 ∷ 0x4d ∷ 0x54 ∷ 0x31 ∷ []

-- Four bytes of an erased page.
abbrev pub erased_word : List ℕ
erased_word = 0xff ∷ 0xff ∷ 0xff ∷ 0xff ∷ []

pub record Flash : Type 1 where
  -- The cells, and the drivers' RAM.
  pub Cells : Type 0
  -- The bytes of a page.
  pub page : ℕ → Cells → List ℕ
  -- `flash_nv_read(page, offset, chunk, length)`: the status and the bytes in the chunk
  pub read : ℕ → ℕ → ℕ → Cells → ℕ × List ℕ × Cells
  -- `flash_nv_program(page, offset, word, limit)`
  pub program : ℕ → ℕ → List ℕ → ℕ → Cells → ℕ × Cells
  -- `flash_nv_erase(page, limit)`
  pub erase : ℕ → ℕ → Cells → ℕ × Cells
  -- A reset: the drivers' RAM is cleared, the cells stay.
  pub reset : Cells → Cells
  pub length-page : (p : ℕ) (c : Cells) → length (page p c) ≡ page_size
  -- A read changes no cell, and one that succeeds gives the bytes.
  pub page-read : (p o n q : ℕ) (c : Cells) → page q (read p o n c).2 ≡ page q c
  pub read_ok :
      (p o n : ℕ) (c : Cells) → (read p o n c).0 ≡ 0 → (read p o n c).1 ≡ take n (drop o (page p c))
  -- A program leaves the other page and the other words alone, and stores its word if it succeeds.
  -- A word whose program failed may hold anything.
  pub page-program_ne :
      (p o : ℕ) (w : List ℕ) (l q : ℕ) (c : Cells) → q ≢ p → page q (program p o w l c).1 ≡ page q c
  pub take-program :
      (p o : ℕ) (w : List ℕ) (l : ℕ) (c : Cells)
      → take o (page p (program p o w l c).1) ≡ take o (page p c)
  pub drop-program :
      (p o : ℕ) (w : List ℕ) (l : ℕ) (c : Cells)
      → drop (o + 4) (page p (program p o w l c).1) ≡ drop (o + 4) (page p c)
  pub program_ok :
      (p o : ℕ) (w : List ℕ) (l : ℕ) (c : Cells)
      → (program p o w l c).0 ≡ 0
      → length w ≡ 4
      → page p (program p o w l c).1 ≡ take o (page p c) ++ (w ++ drop (o + 4) (page p c))
  -- An erase leaves the other page alone, and all bytes of its own 0xff if it succeeds. One that
  -- fails may leave anything in its page.
  pub page-erase_ne : (p l q : ℕ) (c : Cells) → q ≢ p → page q (erase p l c).1 ≡ page q c
  pub erase_ok :
      (p l : ℕ) (c : Cells)
      → (erase p l c).0 ≡ 0
      → page p (erase p l c).1 ≡ replicate page_size 0xff
  pub page-reset : (p : ℕ) (c : Cells) → page p (reset c) ≡ page p c
