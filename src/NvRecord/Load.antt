-- ===== src/NvRecord/Load.antt =====
-- The selection and the load of src/nv_record.c. A pointer is an address, 0 for
-- NULL, and an object behind it is the list of its bytes.
use cc2530_zigbee.Base.{
  ℕ, zero, suc, ◌-◌, Bool, true, false, ◌&&◌, ◌||◌, not, ltb, leb, ◌==◌, ◌!=◌, if◌then◌else◌, List,
  [], take, u16, sub32,
}
use cc2530_zigbee.NvRecord.{
  Result, ok, recovered, empty, invalid_argument, buffer_ownership, no_space, corrupt, conflict,
  unsupported, is_ok, is_recovered, is_valid, is_empty, is_unsupported, Ram, finish, begin, resume,
}
use cc2530_zigbee.NvRecord.Flash.{Flash}
use cc2530_zigbee.NvRecord.Scan.{scan_page}

-- `caller(object, size)`, with the address of `nv_record_reserved_end`
unfoldable pub caller : ℕ → ℕ → ℕ → Bool
caller reserved_end object size =
    let address = u16 object in
    ltb reserved_end address && ltb address 0x1e00 && leb size (0x1e00 - address)

abbrev pub other : ℕ → ℕ
other zero = 1
other (suc i) = 0

-- The end of `select_record`, from the assignment of `selected` on.
unfoldable pub settle : ℕ → Ram → Result × Ram
settle i m =
    let m' = record m { selected = i; record_length = m.lengths i; generation = m.generations i } in
    if not (is_valid (m.pages (other i))) && not (is_empty (m.pages (other i)))
    then (recovered, record m' { has_recovered = true })
    else (ok, m')

-- Two valid pages, `i` the one with the greater generation.
unfoldable pub select_pair : ℕ → Ram → Result × Ram
select_pair i m =
    if m.generations i == 0 || sub32 (m.generations i) (m.generations (other i)) != 1
    then (conflict, m)
    else settle i m

-- `select_record` after its scans.
unfoldable pub select_pages : Ram → Result × Ram
select_pages m =
    if is_unsupported (m.pages 0) || is_unsupported (m.pages 1)
    then (unsupported, m)
    else if not (is_valid (m.pages 0)) && not (is_valid (m.pages 1))
    then (if is_empty (m.pages 0) && is_empty (m.pages 1) then empty else corrupt, m)
    else if is_valid (m.pages 0) && is_valid (m.pages 1)
    then select_pair (if ltb (m.generations 0) (m.generations 1) then 1 else 0) m
    else settle (if is_valid (m.pages 0) then 0 else 1) m

-- `select_record`
unfoldable pub select_record : (F : Flash) → Ram → F.Cells → Result × Ram × F.Cells
select_record F m c =
    let (r, m1, c1) = scan_page F 0 false m c in
    let (r2, m2, c2) = scan_page F 1 false m1 c1 in
    if not (is_ok r)
    then (r, m1, c1)
    else if not (is_ok r2)
    then (r2, m2, c2)
    else let (r3, m3) = select_pages m2 in (r3, m3, c2)

-- Does the page hold what the status says?
unfoldable pub is_current : ℕ → Ram → Bool
is_current i m =
    is_valid (m.pages i) && m.generations i == m.generation && m.lengths i == m.record_length

-- The end of `nv_record_load`, from `publish` on: the bytes copied to the output come second.
unfoldable pub publish : (F : Flash) → Result → Ram → F.Cells → Result × List ℕ × Ram × F.Cells
publish F r m c = (r, take m.record_length m.stage, finish r (record m { phase = 8 }), c)

-- An exit of `nv_record_load` that copies nothing.
unfoldable pub load_end : (F : Flash) → Result → Ram → F.Cells → Result × List ℕ × Ram × F.Cells
load_end F r m c = (r, [], m, c)

-- The check of the selected page in a full selection.
unfoldable pub load_checked : (F : Flash) → Result → Ram → F.Cells → Result × List ℕ × Ram × F.Cells
load_checked F r m c =
    let (s, m1, c1) = scan_page F m.selected true (record m { phase = 2 }) c in
    if not (is_ok s)
    then load_end F m1.fault_latched m1 c1
    else if is_current m.selected m1
    then publish F r m1 c1
    else load_end F corrupt (finish corrupt m1) c1

-- `nv_record_load` from the call of `select_record` on.
unfoldable pub load_selected : (F : Flash) → ℕ → Ram → F.Cells → Result × List ℕ × Ram × F.Cells
load_selected F capacity m c =
    let (r, m1, c1) = select_record F m c in
    let done = load_checked F r m1 c1 in
    if not (is_ok r) && not (is_recovered r)
    then load_end F r (finish r m1) c1
    else if ltb capacity m1.record_length
    then load_end F no_space (finish no_space m1) c1
    else done

-- The branch of `nv_record_load` in which `resume` has answered 1.
unfoldable pub load_resumed : (F : Flash) → ℕ → Ram → F.Cells → Result × List ℕ × Ram × F.Cells
load_resumed F capacity m c =
    let (s, m1, c1) = scan_page F m.selected true (record m { phase = 2 }) c in
    let again = load_selected F capacity (begin m1) c1 in
    if ltb capacity m.record_length
    then load_end F no_space (finish no_space m) c
    else if not (is_ok s)
    then load_end F m1.fault_latched m1 c1
    else if is_current m.selected m1
    then publish F ok m1 c1
    else again

-- `nv_record_load(output, capacity)`
unfoldable pub load : (F : Flash) → ℕ → ℕ → ℕ → Ram → F.Cells → Result × List ℕ × Ram × F.Cells
load F reserved_end output capacity m c =
    if not (is_ok m.fault_latched)
    then load_end F m.fault_latched m c
    else if output == 0 || capacity == 0
    then load_end F invalid_argument m c
    else if not (caller reserved_end output capacity)
    then load_end F buffer_ownership m c
    else let (known, m1) = resume m in
      if known then load_resumed F capacity m1 c else load_selected F capacity m1 c
