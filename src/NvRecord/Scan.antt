-- ===== src/NvRecord/Scan.antt =====
-- `scan_page` of src/nv_record.c: a page is read in chunks of 32 bytes and judged.
use cc2530_zigbee.Base.{
  ℕ, zero, suc, ◌+◌, ◌-◌, bit_xor, Bool, true, false, ◌&&◌, ◌||◌, ltb, leb, ◌==◌, ◌!=◌,
  if◌then◌else◌, List, [], ◌∷◌, ◌++◌, length, take, drop, get_or, decode32, u32,
}
use cc2530_zigbee.NvRecord.{
  Result, ok, read_failed, PageState, page_unchecked, page_empty, page_valid, page_incomplete,
  page_format, page_integrity, page_unsupported, Ram, put, fault, max_record,
}
use cc2530_zigbee.NvRecord.Flash.{Flash, read_max, commit_word}
use cc2530_zigbee.NvRecord.Crc.{crc_update}

-- `magic`
abbrev pub magic_word : List ℕ
magic_word = 0x4e ∷ 0x56 ∷ 0x52 ∷ 0x31 ∷ []

-- The locals of `scan_page`, and what it has written of `header`, `footer`, `crc` and
-- `nv_record_stage`: the arrays are filled from their first element on.
pub record Scan : Type 0 where
  pub erased : Bool
  pub padding : Bool
  pub crc : ℕ
  pub header : List ℕ
  pub footer : List ℕ
  pub captured : List ℕ

unfoldable pub put_header : ℕ → ℕ → List ℕ → List ℕ
put_header position value h = if ltb position 12 then h ++ (value ∷ []) else h

-- One round of the inner loop.
unfoldable pub put_byte : Bool → ℕ → ℕ → Scan → Scan
put_byte capture position value s = record s {
  erased = s.erased && value == 255;
  padding =
      s.padding
      || ltb position 2040
        && leb (12 + get_or (put_header position value s.header) 6 0) position
        && value != 255;
  header = put_header position value s.header;
  footer = if ltb position 2040 then s.footer else s.footer ++ (value ∷ []);
  captured =
      if capture && leb 12 position && ltb position (12 + max_record)
      then s.captured ++ (value ∷ [])
      else s.captured;
}

unfoldable pub put_bytes : Bool → ℕ → List ℕ → Scan → Scan
put_bytes capture position [] s = s
put_bytes capture position (x ∷ xs) s =
    put_bytes capture (suc position) xs (put_byte capture position x s)

-- What a round of the outer loop does with its chunk.
unfoldable pub put_chunk : Bool → ℕ → List ℕ → Scan → Scan
put_chunk capture offset chunk s = put_bytes capture offset chunk (record s {
  crc =
      crc_update s.crc
        (take (if ltb offset (2040 - read_max) then read_max else 2040 - offset) chunk);
})

-- The outer loop with `rounds` to go: the last status of the reader, 0 when all chunks were read.
unfoldable pub scan_chunks : (F : Flash) → ℕ → Bool → ℕ → ℕ → Scan → F.Cells → ℕ × Scan × F.Cells
scan_chunks F page capture zero offset s c = (0, s, c)
scan_chunks F page capture (suc rounds) offset s c =
    let (reader, chunk, c') = F.read page offset read_max c in
    let rest =
      scan_chunks F page capture rounds (offset + read_max) (put_chunk capture offset chunk s) c' in
    if reader == 0 then rest else (reader, s, c')

unfoldable pub start : Scan
start = record {
  erased = true;
  padding = false;
  crc = 0xffffffff;
  header = [];
  footer = [];
  captured = [];
}

-- Does a byte from index `i` on differ from the word?
unfoldable pub differs : List ℕ → ℕ → List ℕ → Bool
differs xs i [] = false
differs xs i (w ∷ ws) = get_or xs i 0 != w || differs xs (suc i) ws

-- The `state` that `scan_page` arrives at.
unfoldable pub page_state : Scan → PageState
page_state s =
    if s.erased
    then page_empty
    else if differs s.footer 4 commit_word
    then page_incomplete
    else if differs s.header 0 magic_word
    then page_format
    else if get_or s.header 4 0 != 1
    then page_unsupported
    else if get_or s.header 5 0 != 0
        || get_or s.header 7 0 != 0
        || get_or s.header 6 0 == 0
        || ltb max_record (get_or s.header 6 0)
        || s.padding
        || decode32 s.header 8 == 0
    then page_format
    else if decode32 s.footer 0 != u32 (bit_xor s.crc 0xffffffff)
    then page_integrity
    else page_valid

-- `nv_record_stage` with what a scan has captured.
unfoldable pub staged : List ℕ → List ℕ → List ℕ
staged new old = new ++ drop (length new) old

unfoldable pub scan_page : (F : Flash) → ℕ → Bool → Ram → F.Cells → Result × Ram × F.Cells
scan_page F page capture m c =
    let (reader, s, c') = scan_chunks F page capture 64 0 start c in
    let m' = record m {
      pages = put m.pages page page_unchecked;
      reader = reader;
      stage = staged s.captured m.stage;
    } in
    if reader == 0
    then (
      ok,
      record m' {
        pages = put m'.pages page (page_state s);
        generations = put m.generations page (decode32 s.header 8);
        lengths = put m.lengths page (get_or s.header 6 0);
      },
      c',
    )
    else (read_failed, fault read_failed m', c')
