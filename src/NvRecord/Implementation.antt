-- ===== src/NvRecord/Implementation.antt =====
-- src/nv_record.c over a flash is a journal as its users take it (Journal).
use cc2530_zigbee.Base.{ℕ, ◌≡◌, ◌⊎◌, refl, sym, ap, subst, ◌∙◌, some, List, inl, inr}
use cc2530_zigbee.NvRecord.{Result, Ram, initial, is_known, max_record}
use cc2530_zigbee.NvRecord.Flash.{Flash}
use cc2530_zigbee.NvRecord.Journal.{Journal}
use cc2530_zigbee.NvRecord.Load.{load}
use cc2530_zigbee.NvRecord.Replace.{replace}
use cc2530_zigbee.NvRecord.Record.{record_of}
use cc2530_zigbee.NvRecord.Selection.{IsSound, image}
use cc2530_zigbee.NvRecord.Loading.{IsClean, Loaded}
use cc2530_zigbee.NvRecord.Loads.{load_Loaded}
use cc2530_zigbee.NvRecord.Replacing.{Replaced, DetectsTears, dead_refused}
use cc2530_zigbee.NvRecord.Replacements.{replace_Replaced}

-- The RAM and the flash, in a state that the calls leave.
pub record Store (F : Flash) : Type 0 where
  pub ram : Ram
  pub cells : F.Cells
  pub sound : IsSound (image F cells) ram
  pub clean : IsClean ram

pub initial-IsSound : (page : ℕ → List ℕ) → IsSound page initial
unfolding initial is_known
initial-IsSound page k = absurd cc

pub initial-IsClean : IsClean initial
unfolding initial
initial-IsClean = refl

pub untorn :
    (F : Flash) (page : ℕ → List ℕ) (data' : List ℕ) (o : Result × Ram × F.Cells)
    → DetectsTears F
    → Replaced F page data' o
    → (record_of (image F o.2) ≡ record_of page)
      ⊎ ((g : ℕ) × (record_of (image F o.2) ≡ some (g, data')))
untorn F page data' o d end_ = elim end_.atomic [
  | inl same ↦ inl same
  | inr (inl new) ↦ inr new
  | inr (inr t) ↦ elim (d t.torn_page t.budget t.before t.failed) [
    | inl same ↦ absurd (t.changed (rw t.left (same ∙ (λ i. t.pages_before i t.torn_page))))
    | inr dead ↦ absurd (
        dead_refused (F.page t.torn_page (F.erase t.torn_page t.budget t.before).1) dead
          (rw (← t.left) t.accepted))
  ]
]

module _ (F : Flash) (detects : DetectsTears F) (reserved_end address : ℕ) where
  -- The callers' objects are `max_record` bytes at `address`.
  abbrev pub load_store : Store F → Result × List ℕ × Store F
  load_store s =
      let o = load F reserved_end address max_record s.ram s.cells in
      let end_ = load_Loaded F reserved_end address max_record s.ram s.cells s.sound s.clean in
      (
        o.0,
        o.1,
        record {
          ram = o.2;
          cells = o.3;
          sound = subst (λ p. IsSound p o.2) (sym end_.same) end_.sound;
          clean = end_.clean;
        },
      )

  abbrev pub replace_store : List ℕ → ℕ → Store F → Result × Store F
  replace_store data' limit s =
      let o = replace F reserved_end address data' limit 0 s.ram s.cells in
      let end_ =
        replace_Replaced F reserved_end address data' limit 0 s.ram s.cells s.sound s.clean in
      (o.0, record { ram = o.1; cells = o.2; sound = end_.sound; clean = end_.clean })

  abbrev pub reset_store : Store F → Store F
  reset_store s = record {
    ram = initial;
    cells = F.reset s.cells;
    sound = initial-IsSound (image F (F.reset s.cells));
    clean = initial-IsClean;
  }

  abbrev pub end_of_load :
      (s : Store F)
      → Loaded F (image F s.cells) max_record (load F reserved_end address max_record s.ram s.cells)
  end_of_load s = load_Loaded F reserved_end address max_record s.ram s.cells s.sound s.clean

  abbrev pub end_of_replace :
      (data' : List ℕ) (limit : ℕ) (s : Store F)
      → Replaced F
          (image F s.cells)
          data'
          (replace F reserved_end address data' limit 0 s.ram s.cells)
  end_of_replace data' limit s =
      replace_Replaced F reserved_end address data' limit 0 s.ram s.cells s.sound s.clean

  -- The journal that the two pages keep.
  abbrev pub journal : Journal
  journal = record {
    Store = Store F;
    recorded = λ s. record_of (image F s.cells);
    load = load_store;
    replace = replace_store;
    generation = λ s. s.ram.generation;
    record_length = λ s. s.ram.record_length;
    reset = reset_store;
    load-recorded = λ s. ap record_of (end_of_load s).same;
    load_fits = λ s. (end_of_load s).fits;
    load_empty = λ s e. (end_of_load s).nothing e;
    load_ok = λ s e. (end_of_load s).taken (rw e refl);
    replace_ok = λ data' limit s e. (end_of_replace data' limit s).replaced e;
    replace_atomic = λ data' limit s.
        untorn F (image F s.cells) data'
          (replace F reserved_end address data' limit 0 s.ram s.cells) detects
          (end_of_replace data' limit s);
    reset-recorded = λ s. ap record_of (λ i q. F.page-reset q s.cells i);
  }
