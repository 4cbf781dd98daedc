-- ===== src/SecurityCounter/Tests.antt =====
-- Runs and witnesses of the frame counters, over a journal that keeps its record in memory.
use cc2530_zigbee.Base.{
  ℕ, suc, ◌≤◌, ◌≡◌, ◌≢◌, ◌⊎◌, refl, decode32, encode32, Bool, leb, if◌then◌else◌, Bool-cases,
  Option, none, some, List, [], ◌∷◌, length, inl, inr, arith,
}
use cc2530_zigbee.NvRecord.{Result, ok, empty, corrupt, max_record}
use cc2530_zigbee.NvRecord
use cc2530_zigbee.NvRecord.Memory
use cc2530_zigbee.NvRecord.Memory.Behaviour
use cc2530_zigbee.NvRecord.Journal.{Journal}
use cc2530_zigbee.NvRecord.Selection.{image}
use cc2530_zigbee.NvRecord.Implementation.{Store, journal, initial-IsSound, initial-IsClean}
use cc2530_zigbee.SecurityCounter.InFlash.{handed_out-journal}
use cc2530_zigbee.SecurityCounter.Defs.{
  finish, fail, floors, check_loaded, current, check_committed, commit, padded, same_bytes, caller,
  payload,
}
use cc2530_zigbee.SecurityCounter.Operations.{
  boot, take_value, create, start, opened, write_header, stage, adopt, check_format, issue,
  enlarged, enlarge, draw, stage_unless, take_checked, refused,
}
use cc2530_zigbee.SecurityCounter.Run.{
  Call, open_record, reset, create_record, take_next, RisesFrom, handed_out, handed_out-RisesFrom,
  call,
}

-- The generation less 1, and the record.
abbrev Cell : Type 0
Cell = Option (ℕ × List ℕ)

abbrev is_sound : List ℕ → Bool
is_sound xs = leb (length xs) max_record

abbrev recorded : Cell → Option (ℕ × List ℕ)
recorded none = none
recorded (some (g, xs)) = some (suc g, xs)

abbrev load : Cell → Result × List ℕ × Cell
load none = (empty, [], none)
load (some (g, xs)) = if is_sound xs then (ok, xs, some (g, xs)) else (corrupt, [], some (g, xs))

abbrev generation : Cell → ℕ
generation none = 0
generation (some (g, xs)) = suc g

abbrev record_length : Cell → ℕ
record_length none = 0
record_length (some (g, xs)) = length xs

abbrev replace : List ℕ → ℕ → Cell → Result × Cell
replace xs limit none = (ok, some (0, xs))
replace xs limit (some (g, old)) = (ok, some (suc g, xs))

load_fits_lem : (s : Cell) → length (load s).1 ≤ max_record
load_fits_lem none = ground arith
load_fits_lem (some (g, xs)) = ground arith

load_ok_lem :
    (s : Cell)
    → (load s).0 ≡ ok
    → (recorded s ≡ some (generation (load s).2, (load s).1))
      × (record_length (load s).2 ≡ length (load s).1)
      × (generation (load s).2 ≢ 0)
load_ok_lem none e = absurd cc
load_ok_lem (some (g, xs)) e = elim (Bool-cases (is_sound xs)) [
  | inl sound ↦ rw sound (refl, refl, omega arith)
  | inr bad ↦ ground arith
]

load-recorded_lem : (s : Cell) → recorded (load s).2 ≡ recorded s
load-recorded_lem s = ground arith

load_empty_lem : (s : Cell) → (load s).0 ≡ empty → recorded s ≡ none
load_empty_lem s e = ground arith

replace_ok_lem :
    (xs : List ℕ) (limit : ℕ) (s : Cell)
    → (replace xs limit s).0 ≡ ok
    → (recorded (replace xs limit s).1 ≡ some (generation (replace xs limit s).1, xs))
      × (generation (replace xs limit s).1 ≢ 0)
replace_ok_lem xs limit s e = ground arith

replace_atomic_lem :
    (xs : List ℕ) (limit : ℕ) (s : Cell)
    → (recorded (replace xs limit s).1 ≡ recorded s)
      ⊎ ((g : ℕ) × (recorded (replace xs limit s).1 ≡ some (g, xs)))
replace_atomic_lem xs limit none = inr (1, refl)
replace_atomic_lem xs limit (some (g, old)) = inr (suc (suc g), refl)

abbrev memory : Journal
memory = record {
  Store = Cell;
  recorded = recorded;
  load = load;
  replace = replace;
  generation = generation;
  record_length = record_length;
  reset = λ s. s;
  load-recorded = load-recorded_lem;
  load_fits = load_fits_lem;
  load_empty = load_empty_lem;
  load_ok = load_ok_lem;
  replace_ok = replace_ok_lem;
  replace_atomic = replace_atomic_lem;
  reset-recorded = λ s. refl;
}

-- A new record with floors 5 and 300; two values of each domain, with a reset between them.
abbrev calls : List Call
calls =
    open_record
    ∷ create_record 5 300 none 0 1
    ∷ take_next 0 (some 0x1000) 1
    ∷ take_next 1 (some 0x1000) 1
    ∷ take_next 0 (some 0x1000) 1
    ∷ reset
    ∷ open_record
    ∷ take_next 0 (some 0x1000) 1
    ∷ take_next 1 (some 0x1000) 1
    ∷ []

-- The last of a range is skipped by the reset, not handed out again.
runs : handed_out 0x800 0 calls (boot memory none) ≡ 5 ∷ 6 ∷ 261 ∷ []
unfolding handed_out call boot take_value create start opened finish write_header stage check_loaded
    check_committed commit fail padded same_bytes adopt check_format floors issue enlarged enlarge
    draw stage_unless take_checked refused caller payload current decode32 encode32
runs = refl

handed_out-RisesFrom_example : RisesFrom 0 (handed_out 0x800 0 calls (boot memory none))
handed_out-RisesFrom_example = handed_out-RisesFrom 0x800 0 calls memory none (omega arith)

-- A new record, and a value of each domain; then, after a reset, a value behind an erase that is
-- torn by a limit of 1, and the start after it.
abbrev torn_calls : List Call
torn_calls =
    open_record
    ∷ create_record 5 300 none 0 9
    ∷ take_next 0 (some 0x1000) 9
    ∷ take_next 1 (some 0x1000) 9
    ∷ reset
    ∷ open_record
    ∷ take_next 0 (some 0x1000) 1
    ∷ reset
    ∷ open_record
    ∷ take_next 0 (some 0x1000) 9
    ∷ []

-- A flash with both pages erased.
abbrev erased_store : Store Memory.memory
erased_store = record {
  ram = NvRecord.initial;
  cells = Memory.erased_cells;
  sound = initial-IsSound (image Memory.memory Memory.erased_cells);
  clean = initial-IsClean;
}

handed_out-journal_example : RisesFrom 0 (
    handed_out 0x800 0 torn_calls
      (boot (journal Memory.memory Behaviour.memory-DetectsTears 0x700 0x900) erased_store))
handed_out-journal_example =
    handed_out-journal Memory.memory Behaviour.memory-DetectsTears 0x800 0x700 0x900 0 torn_calls
      erased_store (omega arith)
