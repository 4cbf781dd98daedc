-- ===== src/NvRecord/Replace.antt =====
-- The replacement of src/nv_record.c.
use cc2530_zigbee.Base.{
  ℕ, zero, suc, ◌+◌, ◌-◌, ◌/◌, bit_xor, false, ◌&&◌, ◌||◌, not, ltb, leb, ◌==◌, ◌!=◌, if◌then◌else◌,
  List, [], ◌∷◌, ◌++◌, length, replicate, get_or, encode32, u8, u32,
}
use cc2530_zigbee.NvRecord.{
  Result, ok, recovered, invalid_argument, buffer_ownership, recovery_required, corrupt,
  generation_exhausted, erase_limit_reached, write_failed, is_ok, is_nothing, is_recovered,
  is_valid, Ram, finish, fault, resume, put, max_record,
}
use cc2530_zigbee.NvRecord.Flash.{Flash, commit_word}
use cc2530_zigbee.NvRecord.Crc.{crc_update}
use cc2530_zigbee.NvRecord.Scan.{scan_page, magic_word, staged}
use cc2530_zigbee.NvRecord.Load.{caller, other, select_record}

-- `NV_RECORD_ERASE_LIMIT`
abbrev pub erase_limit : ℕ
erase_limit = 32

-- `program(page, offset, limit)` of the word.
unfoldable pub program : (F : Flash) → ℕ → ℕ → List ℕ → ℕ → Ram → F.Cells → Result × Ram × F.Cells
program F page offset word limit m c =
    let (status, c1) = F.program page offset word limit c in
    let m1 = record m { writer = status } in
    if status == 0 then (ok, m1, c1) else (write_failed, fault write_failed m1, c1)

-- The word at `position` of the header and the record, 0xff beyond them.
unfoldable pub word_at : List ℕ → ℕ → List ℕ
word_at content position =
    get_or content position 255
    ∷ get_or content (position + 1) 255
    ∷ get_or content (position + 2) 255
    ∷ get_or content (position + 3) 255
    ∷ []

-- The loop that programs the header and the record, with `rounds` to go.
unfoldable pub program_body :
    (F : Flash) → ℕ → List ℕ → ℕ → ℕ → ℕ → Ram → F.Cells → Result × Ram × F.Cells
program_body F page content limit zero position m c = (ok, m, c)
program_body F page content limit (suc rounds) position m c =
    let (r, m1, c1) = program F page position (word_at content position) limit m c in
    let rest = program_body F page content limit rounds (position + 4) m1 c1 in
    if is_ok r then rest else (m1.fault_latched, m1, c1)

-- The header of a new record.
unfoldable pub new_header : ℕ → ℕ → List ℕ
new_header size generation =
    encode32 (magic_word ++ (1 ∷ 0 ∷ size ∷ 0 ∷ 0 ∷ 0 ∷ 0 ∷ 0 ∷ [])) 8 generation

-- The first four bytes of its footer: the CRC, of the header, the record and the erased bytes.
unfoldable pub new_crc : List ℕ → List ℕ → List ℕ
new_crc head body =
    let crc =
      crc_update (crc_update (crc_update 0xffffffff head) body)
        (replicate (2028 - length body) 255) in
    encode32 (0 ∷ 0 ∷ 0 ∷ 0 ∷ []) 0 (u32 (bit_xor crc 0xffffffff))

-- The end of `nv_record_replace`, from phase 7 on: the verification.
unfoldable pub verify_new : (F : Flash) → ℕ → ℕ → Ram → F.Cells → Result × Ram × F.Cells
verify_new F page size m c =
    let (r, m1, c1) = scan_page F page false (record m { phase = 7 }) c in
    let m2 = record m1 {
      selected = page;
      record_length = size;
      generation = u32 (m1.generation + 1);
      phase = 8;
    } in
    let answer = if m2.has_recovered then recovered else ok in
    if not (is_ok r)
    then (m1.fault_latched, m1, c1)
    else if not (is_valid (m1.pages page))
        || m1.generations page != u32 (m1.generation + 1)
        || m1.lengths page != size
    then (corrupt, fault corrupt m1, c1)
    else (answer, finish answer m2, c1)

-- Phase 6 of `nv_record_replace` and on: the commit word.
unfoldable pub commit_new : (F : Flash) → ℕ → ℕ → ℕ → Ram → F.Cells → Result × Ram × F.Cells
commit_new F page size limit m c =
    let (r, m1, c1) = program F page 2044 commit_word limit (record m { phase = 6 }) c in
    let done = verify_new F page size m1 c1 in if is_ok r then done else (m1.fault_latched, m1, c1)

-- Phase 4 and on: header and record, and the CRC.
unfoldable pub write_new :
    (F : Flash) → ℕ → List ℕ → List ℕ → List ℕ → ℕ → Ram → F.Cells → Result × Ram × F.Cells
write_new F page head body crc limit m c =
    let (r, m1, c1) =
      program_body F page (head ++ body) limit ((12 + length body + 3) / 4) 0
        (record m { phase = 4 }) c in
    let (r2, m2, c2) = program F page 2040 crc limit (record m1 { phase = 5 }) c1 in
    let done = commit_new F page (length body) limit m2 c2 in
    if not (is_ok r)
    then (m1.fault_latched, m1, c1)
    else if not (is_ok r2)
    then (m2.fault_latched, m2, c2)
    else done

-- The staging and phase 3: the erase of the page.
unfoldable pub erase_and_write :
    (F : Flash) → ℕ → List ℕ → ℕ → Ram → F.Cells → Result × Ram × F.Cells
erase_and_write F page data' limit m c =
    let head = new_header (length data') (u32 (m.generation + 1)) in
    let (status, c1) = F.erase page limit c in
    let m1 = record m {
      stage = staged data' m.stage;
      phase = 3;
      erase_attempts = put m.erase_attempts page (u8 (m.erase_attempts page + 1));
      writer = status;
    } in
    let done = write_new F page head data' (new_crc head data') limit m1 c1 in
    if status == 0 then done else (write_failed, fault write_failed m1, c1)

-- `nv_record_replace` after the selection, whose result is `r`.
unfoldable pub replace_selected :
    (F : Flash) → List ℕ → ℕ → ℕ → Result → Ram → F.Cells → Result × Ram × F.Cells
replace_selected F data' limit allow_recovery r m c =
    let page = if m.selected == 255 then 0 else other m.selected in
    let done = erase_and_write F page data' limit m c in
    if is_recovered r && allow_recovery == 0
    then (recovery_required, finish recovery_required m, c)
    else if not (is_ok r) && not (is_recovered r) && not (is_nothing r)
    then (r, finish r m, c)
    else if m.generation == 0xffffffff
    then (generation_exhausted, finish generation_exhausted m, c)
    else if leb erase_limit (m.erase_attempts page)
    then (erase_limit_reached, finish erase_limit_reached m, c)
    else done

-- `nv_record_replace(data, length, poll_limit, allow_recovery)`, where `length` is that of the data
unfoldable pub replace :
    (F : Flash) → ℕ → ℕ → List ℕ → ℕ → ℕ → Ram → F.Cells → Result × Ram × F.Cells
replace F reserved_end address data' limit allow_recovery m c =
    if not (is_ok m.fault_latched)
    then (m.fault_latched, m, c)
    else if address == 0
        || length data' == 0
        || ltb max_record (length data')
        || limit == 0
        || ltb 1 allow_recovery
    then (invalid_argument, m, c)
    else if not (caller reserved_end address (length data'))
    then (buffer_ownership, m, c)
    else let (known, m1) = resume m in
      if known
      then replace_selected F data' limit allow_recovery ok m1 c
      else let (r, m2, c2) = select_record F m1 c in
        replace_selected F data' limit allow_recovery r m2 c2
