-- ===== src/NvRecord/Tests.antt =====
-- Runs and witnesses of the journal, on a flash in memory.
use cc2530_zigbee.Base.{
  ℕ, ◌≡◌, ◌≢◌, refl, sym, ◌∙◌, inr, bit_xor, true, List, [], ◌∷◌, ◌++◌, arith, decode32,
}
use cc2530_zigbee.NvRecord.{Ram, initial, ok, empty, page_valid, page_empty}
use cc2530_zigbee.NvRecord.Crc.{
  crc_low, crc_high, crc_step, crc_steps, split, join, crc_update, crc_update-append,
  crc_tables_lem,
}
use cc2530_zigbee.NvRecord.Scan.{scan_page, scan_chunks, page_state}
use cc2530_zigbee.NvRecord.View.{view, all_erased}
use cc2530_zigbee.NvRecord.Filling.{blank}
use cc2530_zigbee.NvRecord.Record.{chosen, choose, newest, settled, Reported, select_pages-chosen}
use cc2530_zigbee.NvRecord.Read.{
  state_of, seen, generation_of, length_of, body_of, scanned, scan_page_ok,
}
use cc2530_zigbee.NvRecord.Load.{caller, load, select_pages}
use cc2530_zigbee.NvRecord.Replace.{replace}
use cc2530_zigbee.NvRecord.Selection.{image}
use cc2530_zigbee.NvRecord.Loading.{Loaded}
use cc2530_zigbee.NvRecord.Loads.{load_Loaded}
use cc2530_zigbee.NvRecord.Replacing.{Replaced}
use cc2530_zigbee.NvRecord.Replacements.{replace_Replaced}
use cc2530_zigbee.NvRecord.NewPage.{new_page, new_page_ok}
use cc2530_zigbee.NvRecord.Implementation.{initial-IsSound, initial-IsClean}
use cc2530_zigbee.NvRecord.Memory.{memory, erased_cells}
use cc2530_zigbee.NvRecord.Memory.Behaviour.{memory-IsHealthy}
use cc2530_zigbee.NvRecord.Success.{replace_succeeds}

-- The check value of the CRC-32: that of the digits 1 to 9.
check_value :
    bit_xor
      (crc_update 0xffffffff (0x31 ∷ 0x32 ∷ 0x33 ∷ 0x34 ∷ 0x35 ∷ 0x36 ∷ 0x37 ∷ 0x38 ∷ 0x39 ∷ []))
      0xffffffff
    ≡ 0xcbf43926
unfolding crc_update crc_steps crc_step crc_low crc_high split join
check_value = refl

crc_update-append_example :
    crc_update 0xffffffff ((0x31 ∷ 0x32 ∷ []) ++ (0x33 ∷ []))
    ≡ crc_update (crc_update 0xffffffff (0x31 ∷ 0x32 ∷ [])) (0x33 ∷ [])
crc_update-append_example = crc_update-append 0xffffffff (0x31 ∷ 0x32 ∷ []) (0x33 ∷ [])

crc_tables_lem_example :
    (bit_xor (crc_low 0 13) (crc_high 0 12) ≡ 0x0d)
    × (bit_xor (crc_low 1 13) (crc_high 1 12) ≡ 0xbe)
    × (bit_xor (crc_low 2 13) (crc_high 2 12) ≡ 0xd5)
    × (bit_xor (crc_low 3 13) (crc_high 3 12) ≡ 0xe5)
crc_tables_lem_example = crc_tables_lem 0xcd (omega arith)

abbrev data_here : List ℕ
data_here = 0x11 ∷ 0x22 ∷ 0xff ∷ []

new_page_ok_example :
    (state_of (new_page data_here 7) ≡ page_valid)
    × (generation_of (new_page data_here 7) ≡ 7)
    × (length_of (new_page data_here 7) ≡ 3)
    × (body_of (new_page data_here 7) ≡ data_here)
new_page_ok_example =
    new_page_ok data_here 7 (λ e. absurd (omega arith)) (omega arith) (omega arith)
      (λ e. absurd (omega arith))

-- Two erased pages.
abbrev scanned_ram : Ram
scanned_ram = record initial {
  pages = λ i. page_empty;
  generations = λ i. 0xffffffff;
  lengths = λ i. 255;
}

pages_Reported : Reported (λ p. blank) scanned_ram
unfolding state_of seen view page_state all_erased generation_of decode32 length_of
pages_Reported = record {
  states0 = refl;
  states1 = refl;
  generations0 = refl;
  generations1 = refl;
  lengths0 = refl;
  lengths1 = refl;
}

select_pages-chosen_example :
    select_pages scanned_ram
    ≡ ((chosen (λ p. blank)).0, settled (chosen (λ p. blank)).0 (chosen (λ p. blank)).1 scanned_ram)
select_pages-chosen_example = select_pages-chosen (λ p. blank) scanned_ram pages_Reported

scan_page_ok_example :
    (scan_page memory 0 true initial erased_cells).1
    ≡ scanned memory 0 true initial (image memory erased_cells 0)
unfolding scan_page scan_chunks
scan_page_ok_example = scan_page_ok memory 0 true initial erased_cells refl

load_Loaded_example :
    Loaded memory (image memory erased_cells) 128 (load memory 0x800 0x900 128 initial erased_cells)
load_Loaded_example =
    load_Loaded memory 0x800 0x900 128 initial erased_cells
      (initial-IsSound (image memory erased_cells)) initial-IsClean

replace_Replaced_example :
    Replaced memory
      (image memory erased_cells)
      data_here
      (replace memory 0x800 0x900 data_here 9 0 initial erased_cells)
replace_Replaced_example =
    replace_Replaced memory 0x800 0x900 data_here 9 0 initial erased_cells
      (initial-IsSound (image memory erased_cells)) initial-IsClean

ok_apart : ok ≢ empty
ok_apart e = absurd cc

nothing_yet : (chosen (image memory erased_cells)).0 ≡ empty
unfolding chosen choose newest state_of seen view page_state all_erased
nothing_yet = refl

replace_succeeds_example : (replace memory 0x800 0x900 data_here 9 0 initial erased_cells).0 ≡ ok
unfolding caller
replace_succeeds_example =
    replace_succeeds memory memory-IsHealthy 0x800 0x900 data_here 9 erased_cells (inr nothing_yet)
      (λ e. absurd (ok_apart (sym e ∙ nothing_yet))) (λ e. absurd (omega arith))
      (λ e. absurd (omega arith)) (omega arith) (λ e. absurd (omega arith)) (omega arith) refl refl
