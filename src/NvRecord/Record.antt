-- ===== src/NvRecord/Record.antt =====
-- The record that two pages hold, by rules that do not speak of the driver of src/nv_record.c.
use cc2530_zigbee.Base.{
  ℕ, ◌+◌, ◌^◌, ◌≤◌, ◌<◌, ◌≡◌, ◌≢◌, refl, Bool, true, false, ◌&&◌, ◌||◌, not, ◌==◌, ◌!=◌,
  if◌then◌else◌, Option, none, some, List, take, drop, arith, decode32-lt, Bool-cases, inl, inr,
  ltb, get_or, decode32, sub32, u32, bit_xor,
}
use cc2530_zigbee.NvRecord.{
  Result, ok, recovered, empty, corrupt, conflict, unsupported, PageState, page_valid, page_empty,
  page_incomplete, page_format, page_unsupported, page_integrity, is_valid, is_empty, is_ok,
  is_recovered, is_unsupported, Ram, max_record,
}
use cc2530_zigbee.NvRecord.Read.{seen, state_of, generation_of, length_of, body_of}
use cc2530_zigbee.NvRecord.View.{view, all_erased, is_padded}
use cc2530_zigbee.NvRecord.Scan.{page_state, differs, magic_word}
use cc2530_zigbee.NvRecord.Flash.{commit_word}
use cc2530_zigbee.NvRecord.Load.{settle, select_pair, select_pages}

-- The choice between two valid pages.
unfoldable pub newest : ℕ → ℕ → Result × ℕ
newest g0 g1 = if g1 == g0 + 1 then (ok, 1) else if g0 == g1 + 1 then (ok, 0) else (conflict, 255)

-- The result of a selection, and the page that it selects: the page whose generation follows the
-- other's, or the only valid one, which counts as recovered beside a page that is not erased.
unfoldable pub choose : PageState → PageState → ℕ → ℕ → Result × ℕ
choose s0 s1 g0 g1 =
    if is_unsupported s0 || is_unsupported s1
    then (unsupported, 255)
    else if is_valid s0 && is_valid s1
    then newest g0 g1
    else if is_valid s0
    then (if is_empty s1 then ok else recovered, 0)
    else if is_valid s1
    then (if is_empty s0 then ok else recovered, 1)
    else (if is_empty s0 && is_empty s1 then empty else corrupt, 255)

unfoldable pub chosen : (ℕ → List ℕ) → Result × ℕ
chosen page =
    choose (state_of (page 0)) (state_of (page 1)) (generation_of (page 0)) (generation_of (page 1))

abbrev pub entry : Result → List ℕ → Option (ℕ × List ℕ)
entry ok xs = some (generation_of xs, body_of xs)
entry recovered xs = some (generation_of xs, body_of xs)
entry _ xs = none

-- The record of the pages, with its generation.
unfoldable pub record_of : (ℕ → List ℕ) → Option (ℕ × List ℕ)
record_of page = entry (chosen page).0 (page (chosen page).1)

-- The test that passes a page to the last branches, at the fields of the header.
valid_passes :
    (b0 b1 b2 b3 b4 b5 : Bool)
    → is_valid (
        if b0
        then page_empty
        else if b1
        then page_incomplete
        else if b2
        then page_format
        else if b3
        then page_unsupported
        else if b4
        then page_format
        else if b5
        then page_integrity
        else page_valid)
      ≡ true
    → b4 ≡ false
valid_passes b0 b1 b2 b3 b4 b5 h = ground arith

field_bounds :
    (b c p : Bool) (l g : ℕ)
    → (b || c || l == 0 || ltb max_record l || p || g == 0) ≡ false
    → (g ≢ 0) × (l ≢ 0) × (l ≤ max_record)
field_bounds b c p l g h = (ground arith, ground arith, ground arith)

-- A valid page has a generation and a length within bounds.
pub state_of-page_valid :
    (xs : List ℕ)
    → is_valid (state_of xs) ≡ true
    → (generation_of xs ≢ 0) × (length_of xs ≢ 0) × (length_of xs ≤ max_record)
unfolding state_of generation_of length_of seen view page_state
state_of-page_valid xs h =
    let head = take 12 xs in
    let foot = drop 2040 xs in
    let b5 = get_or head 5 0 != 0 in
    let b7 = get_or head 7 0 != 0 in
    let length_byte = get_or head 6 0 in
    let gap = not (is_padded xs) in
    let bad =
      b5 || b7 || length_byte == 0 || ltb max_record length_byte || gap || decode32 head 8 == 0 in
    let torn = decode32 foot 0 != u32 (bit_xor (seen false xs).crc 0xffffffff) in
    field_bounds b5 b7 gap length_byte (decode32 head 8) (
      valid_passes (all_erased xs) (differs foot 4 commit_word) (differs head 0 magic_word)
        (get_or head 4 0 != 1) bad torn h)

pub generation_of-lt : (xs : List ℕ) → generation_of xs < 2 ^ 32
unfolding generation_of
generation_of-lt xs = decode32-lt (take 12 xs) 8

-- What a selection does to the RAM.
unfoldable pub settled : Result → ℕ → Ram → Ram
settled r i m =
    let picked = record m {
      selected = i;
      record_length = m.lengths i;
      generation = m.generations i;
    } in
    if is_ok r then picked else if is_recovered r then record picked { has_recovered = true } else m

select_pair_lem :
    (m : Ram)
    → m.generations 0 ≢ 0
    → m.generations 1 ≢ 0
    → m.generations 0 < 2 ^ 32
    → m.generations 1 < 2 ^ 32
    → is_valid (m.pages 0) ≡ true
    → is_valid (m.pages 1) ≡ true
    → select_pair (if ltb (m.generations 0) (m.generations 1) then 1 else 0) m ≡ (
      (newest (m.generations 0) (m.generations 1)).0,
      settled
          (newest (m.generations 0) (m.generations 1)).0
          (newest (m.generations 0) (m.generations 1)).1
          m,
    )
unfolding select_pair settle settled newest
select_pair_lem m n0 n1 l0 l1 v0 v1 =
    let g0 = m.generations 0 in
    let g1 = m.generations 1 in
    elim (Bool-cases (ltb g0 g1)) [
      | inl lt ↦
          let no : (g0 == g1 + 1) ≡ false = ground arith in
          elim (Bool-cases (g1 == g0 + 1)) [
            | inl e ↦
                let z : (g1 == 0 || sub32 g1 g0 != 1) ≡ false = ground arith in
                rw (lt, e, z, v0) refl
            | inr e ↦
                let z : (g1 == 0 || sub32 g1 g0 != 1) ≡ true = ground arith in
                rw (lt, e, no, z) refl
          ]
      | inr ge ↦
          let no : (g1 == g0 + 1) ≡ false = ground arith in
          elim (Bool-cases (g0 == g1 + 1)) [
            | inl e ↦
                let z : (g0 == 0 || sub32 g0 g1 != 1) ≡ false = ground arith in
                rw (ge, no, e, z, v1) refl
            | inr e ↦
                let z : (g0 == 0 || sub32 g0 g1 != 1) ≡ true = ground arith in
                rw (ge, no, e, z) refl
          ]
    ]

-- What the RAM says of two pages is so.
pub record Reported (page : ℕ → List ℕ) (m : Ram) : Type 0 where
  pub states0 : m.pages 0 ≡ state_of (page 0)
  pub states1 : m.pages 1 ≡ state_of (page 1)
  pub generations0 : m.generations 0 ≡ generation_of (page 0)
  pub generations1 : m.generations 1 ≡ generation_of (page 1)
  pub lengths0 : m.lengths 0 ≡ length_of (page 0)
  pub lengths1 : m.lengths 1 ≡ length_of (page 1)

-- Where the RAM reports two pages as they are, the selection answers the result of `choose` and
-- picks its page: the status takes that page's generation and length.
pub select_pages-chosen :
    (page : ℕ → List ℕ) (m : Ram)
    → Reported page m
    → select_pages m ≡ ((chosen page).0, settled (chosen page).0 (chosen page).1 m)
unfolding select_pages chosen choose settle settled
select_pages-chosen page m told =
    let p0 = told.states0 in
    let p1 = told.states1 in
    let e0 = told.generations0 in
    let e1 = told.generations1 in
    let s0 = state_of (page 0) in
    let s1 = state_of (page 1) in
    elim (Bool-cases (is_unsupported s0)) [
      | inl u0 ↦ rw (p0, p1, u0) refl
      | inr u0 ↦ elim (Bool-cases (is_unsupported s1)) [
        | inl u1 ↦ rw (p0, p1, u0, u1) refl
        | inr u1 ↦ elim (Bool-cases (is_valid s0)) [
          | inl v0 ↦ elim (Bool-cases (is_valid s1)) [
            | inl v1 ↦
                rw (p0, p1, u0, u1, v0, v1, ← e0, ← e1)
                  (select_pair_lem m (rw e0 (state_of-page_valid (page 0) v0).0)
                    (rw e1 (state_of-page_valid (page 1) v1).0) (rw e0 (generation_of-lt (page 0)))
                    (rw e1 (generation_of-lt (page 1))) (rw p0 v0) (rw p1 v1))
            | inr v1 ↦ elim (Bool-cases (is_empty s1)) [
              | inl z ↦ rw (p0, p1, u0, u1, v0, v1, p1, v1, z) refl
              | inr z ↦ rw (p0, p1, u0, u1, v0, v1, p1, v1, z) refl
            ]
          ]
          | inr v0 ↦ elim (Bool-cases (is_valid s1)) [
            | inl v1 ↦ elim (Bool-cases (is_empty s0)) [
              | inl z ↦ rw (p0, p1, u0, u1, v0, v1, p0, v0, z) refl
              | inr z ↦ rw (p0, p1, u0, u1, v0, v1, p0, v0, z) refl
            ]
            | inr v1 ↦ elim (Bool-cases (is_empty s0 && is_empty s1)) [
              | inl z ↦ rw (p0, p1, u0, u1, v0, v1, z) refl
              | inr z ↦ rw (p0, p1, u0, u1, v0, v1, z) refl
            ]
          ]
        ]
      ]
    ]
