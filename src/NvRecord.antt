-- ===== src/NvRecord.antt =====
-- src/nv_record.c: the two-page record journal in flash. Here its results and its private RAM; the
-- children are the flash under it (Flash), its CRC (Crc), the judgement of a page (Scan), its calls
-- (Operations) and the interface that its users take (Journal).
pub mod Journal
pub mod Flash
pub mod Crc
pub mod Scan
pub mod View
pub mod Read
pub mod Load
pub mod Replace
pub mod Record
pub mod Selection
pub mod Loading
pub mod Loads
pub mod NewPage
pub mod Outcome
pub mod Writing
pub mod Attempt
pub mod Filling
pub mod Attempts
pub mod Replacing
pub mod Replacements
pub mod Implementation
pub mod Healthy
pub mod Success
pub mod Memory
mod Tests
use cc2530_zigbee.Base.{ℕ, Bool, true, false, ◌&&◌, not, ◌==◌, ltb, if◌then◌else◌, List, []}

-- `nv_record_result_t`
pub data Result : Type 0 where
  ok recovered empty invalid_argument buffer_ownership no_space recovery_required : Result
  corrupt conflict generation_exhausted erase_limit_reached read_failed write_failed : Result
  pending unsupported : Result

-- `NV_RECORD_MAX`
abbrev pub max_record : ℕ
max_record = 128

-- `nv_record_page_state_t`
pub data PageState : Type 0 where
  page_unchecked page_empty page_valid page_incomplete page_format : PageState
  page_integrity page_unsupported : PageState

abbrev pub is_ok : Result → Bool
is_ok ok = true
is_ok _ = false

abbrev pub is_recovered : Result → Bool
is_recovered recovered = true
is_recovered _ = false

abbrev pub is_nothing : Result → Bool
is_nothing empty = true
is_nothing _ = false

abbrev pub is_valid : PageState → Bool
is_valid page_valid = true
is_valid _ = false

abbrev pub is_empty : PageState → Bool
is_empty page_empty = true
is_empty _ = false

abbrev pub is_unsupported : PageState → Bool
is_unsupported page_unsupported = true
is_unsupported _ = false

-- The module's variables: `nv_record_fault` (ok for none), the fields of `nv_record_diagnostic`
-- (`length` is record_length), and the static `generations`, `lengths` and `nv_record_stage`. An
-- array of two is a function of the page. `header`, `footer`, `crc`, the chunk and the word are
-- written in every call before they are read, and are values of the functions that write them.
pub record Ram : Type 0 where
  pub fault_latched : Result
  pub generation : ℕ
  pub result : Result
  pub selected : ℕ
  pub record_length : ℕ
  pub phase : ℕ
  pub reader : ℕ
  pub writer : ℕ
  pub has_recovered : Bool
  pub pages : ℕ → PageState
  pub erase_attempts : ℕ → ℕ
  pub generations : ℕ → ℕ
  pub lengths : ℕ → ℕ
  pub stage : List ℕ

-- `array[page] = value`
abbrev pub put {ℓ} : {A : Type ℓ} → (ℕ → A) → ℕ → A → ℕ → A
put f page v = λ i. if i == page then v else f i

-- The RAM after a reset.
unfoldable pub initial : Ram
initial = record {
  fault_latched = ok;
  generation = 0;
  result = ok;
  selected = 0;
  record_length = 0;
  phase = 0;
  reader = 0;
  writer = 0;
  has_recovered = false;
  pages = λ i. page_unchecked;
  erase_attempts = λ i. 0;
  generations = λ i. 0;
  lengths = λ i. 0;
  stage = [];
}

unfoldable pub finish : Result → Ram → Ram
finish r m = record m { result = r }

unfoldable pub fault : Result → Ram → Ram
fault r m = finish r (record m { fault_latched = r })

-- It clears the diagnostic up to `erase_attempts`.
unfoldable pub begin : Ram → Ram
begin m = record m {
  generation = 0;
  result = pending;
  selected = 255;
  record_length = 0;
  phase = 1;
  reader = 255;
  writer = 255;
  has_recovered = false;
  pages = λ i. page_unchecked;
}

-- The `known` of `resume`.
unfoldable pub is_known : Ram → Bool
is_known m = m.phase == 8 && is_ok m.result && ltb m.selected 2 && not m.has_recovered

-- `resume`: its answer, and the diagnostic it leaves
unfoldable pub resume : Ram → Bool × Ram
resume m =
    if is_known m
    then (
      true,
      record (begin m) {
        selected = m.selected;
        record_length = m.record_length;
        generation = m.generation;
        pages = m.pages;
      },
    )
    else (false, begin m)
