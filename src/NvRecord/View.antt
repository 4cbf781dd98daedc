-- ===== src/NvRecord/View.antt =====
-- What `scan_page` of src/nv_record.c finds, as a function of the whole page.
use cc2530_zigbee.Base.{
  ℕ, zero, suc, ◌+◌, ◌-◌, ◌≤◌, ◌<◌, ◌≡◌, refl, Bool, true, false, ◌&&◌, ◌||◌, not, ltb, leb, ◌==◌,
  ◌!=◌, if◌then◌else◌, List, [], ◌∷◌, ◌++◌, length, take, drop, get_or, arith, length-append,
  take_all, drop_all, get_or-append, get_or-take, append_assoc, append_nil, length-drop, Bool-cases,
  inl, inr,
}
use cc2530_zigbee.NvRecord.{max_record}
use cc2530_zigbee.NvRecord.Scan.{Scan, put_header, put_byte, put_bytes}

unfoldable pub all_erased : List ℕ → Bool
all_erased [] = true
all_erased (x ∷ xs) = x == 255 && all_erased xs

-- The bytes between the record and the footer are all erased.
unfoldable pub is_padded : List ℕ → Bool
is_padded xs = all_erased (drop (12 + get_or xs 6 0) (take 2040 xs))

-- The scan of a prefix of a page, whose remainder is `k`.
unfoldable pub view : Bool → ℕ → List ℕ → Scan
view capture k xs = record {
  erased = all_erased xs;
  padding = not (is_padded xs);
  crc = k;
  header = take 12 xs;
  footer = drop 2040 xs;
  captured = if capture then take max_record (drop 12 xs) else [];
}

all_erased-append : (xs ys : List ℕ) → all_erased (xs ++ ys) ≡ (all_erased xs && all_erased ys)
unfolding all_erased
all_erased-append [] ys = refl
all_erased-append (x ∷ xs) ys = ground (arith, all_erased-append xs ys)

all_erased_one : (x : ℕ) → all_erased (x ∷ []) ≡ (x == 255)
unfolding all_erased
all_erased_one x = ground arith

-- One more element, at an end that is reached or not.
take_more :
    (n : ℕ) (xs : List ℕ) (x : ℕ)
    → take n (xs ++ (x ∷ [])) ≡ (if ltb (length xs) n then take n xs ++ (x ∷ []) else take n xs)
take_more zero [] x = refl
take_more zero (y ∷ xs) x = ground arith
take_more (suc n) [] x = rw (take_all {A = ℕ} n [] (omega arith)) (ground arith)
take_more (suc n) (y ∷ xs) x = ground (arith, take_more n xs x)

drop_more :
    (n : ℕ) (xs : List ℕ) (x : ℕ)
    → drop n (xs ++ (x ∷ [])) ≡ (if ltb (length xs) n then drop n xs else drop n xs ++ (x ∷ []))
drop_more zero [] x = ground arith
drop_more zero (y ∷ xs) x = ground arith
drop_more (suc n) [] x = rw (drop_all {A = ℕ} n [] (omega arith)) (ground arith)
drop_more (suc n) (y ∷ xs) x = ground (arith, drop_more n xs x)

header_more :
    (xs : List ℕ) (x : ℕ) → put_header (length xs) x (take 12 xs) ≡ take 12 (xs ++ (x ∷ []))
unfolding put_header
header_more xs x = ground (arith, take_more 12 xs x)

erased_more : (xs : List ℕ) (x : ℕ) → (all_erased xs && x == 255) ≡ all_erased (xs ++ (x ∷ []))
erased_more xs x = rw (all_erased-append xs (x ∷ []), all_erased_one x) refl

ltb_shift : (n k d m : ℕ) → n ≡ d + k → ltb n (d + m) ≡ ltb k m
ltb_shift n k d m h = ground arith

captured_on :
    (ys : List ℕ) (x n : ℕ)
    → n ≡ 12 + length ys
    → (if ltb n (12 + max_record) then take max_record ys ++ (x ∷ []) else take max_record ys)
      ≡ take max_record (ys ++ (x ∷ []))
captured_on ys x n h =
    let e : ltb n (12 + max_record) ≡ ltb (length ys) max_record =
      ltb_shift n (length ys) 12 max_record h in
    rw (e, take_more max_record ys x) refl

captured_more :
    (capture : Bool) (xs : List ℕ) (x : ℕ)
    → (if capture && leb 12 (length xs) && ltb (length xs) (12 + max_record)
        then (if capture then take max_record (drop 12 xs) else []) ++ (x ∷ [])
        else (if capture then take max_record (drop 12 xs) else []))
      ≡ (if capture then take max_record (drop 12 (xs ++ (x ∷ []))) else [])
captured_more false xs x = refl
captured_more true xs x = elim (Bool-cases (ltb (length xs) 12)) [
  | inl short ↦
      let low : leb 12 (length xs) ≡ false = ground arith in rw (low, drop_more 12 xs x, short) refl
  | inr long ↦
      let high : leb 12 (length xs) ≡ true = ground arith in
      let len : length (drop 12 xs) ≡ length xs - 12 = length-drop 12 xs in
      rw (high, drop_more 12 xs x, long) (captured_on (drop 12 xs) x (length xs) (ground arith))
]

padding_end :
    (xs : List ℕ) (x m : ℕ)
    → (not (all_erased (drop m xs)) || leb m (length xs) && x != 255)
      ≡ not (all_erased (if ltb (length xs) m then drop m xs else drop m xs ++ (x ∷ [])))
padding_end xs x m = elim (Bool-cases (ltb (length xs) m)) [
  | inl short ↦ let low : leb m (length xs) ≡ false = ground arith in rw (short, low) (ground arith)
  | inr long ↦
      let high : leb m (length xs) ≡ true = ground arith in
      rw (long, high, all_erased-append (drop m xs) (x ∷ []), all_erased_one x) (ground arith)
]

-- From byte 12 on the length byte is known.
padding_on :
    (xs : List ℕ) (x h : ℕ)
    → (not (all_erased (drop (12 + h) (take 2040 xs)))
        || ltb (length xs) 2040 && leb (12 + h) (length xs) && x != 255)
      ≡ not (all_erased (drop (12 + h) (take 2040 (xs ++ (x ∷ [])))))
padding_on xs x h = elim (Bool-cases (ltb (length xs) 2040)) [
  | inl short ↦
      let all : take 2040 xs ≡ xs = take_all 2040 xs (ground arith) in
      rw (take_more 2040 xs x, short, all, drop_more (12 + h) xs x) (padding_end xs x (12 + h))
  | inr long ↦ rw (take_more 2040 xs x, long) (ground arith)
]

is_padded_short : (xs : List ℕ) → length xs ≤ 12 → is_padded xs ≡ true
unfolding is_padded all_erased
is_padded_short xs h =
    rw (take_all 2040 xs (omega arith), drop_all (12 + get_or xs 6 0) xs (omega arith)) refl

padding_short :
    (xs : List ℕ) (x h : ℕ)
    → length xs < 12
    → (not (is_padded xs) || ltb (length xs) 2040 && leb (12 + h) (length xs) && x != 255)
      ≡ not (is_padded (xs ++ (x ∷ [])))
padding_short xs x h short =
    let next : length (xs ++ (x ∷ [])) ≤ 12 = omega (arith, length-append xs (x ∷ [])) in
    let low : leb (12 + h) (length xs) ≡ false = ground arith in
    rw (is_padded_short xs (omega arith), is_padded_short (xs ++ (x ∷ [])) next, low) (ground arith)

padding_more :
    (xs : List ℕ) (x : ℕ)
    → (not (is_padded xs)
        || ltb (length xs) 2040
          && leb (12 + get_or (take 12 (xs ++ (x ∷ []))) 6 0) (length xs)
          && x != 255)
      ≡ not (is_padded (xs ++ (x ∷ [])))
unfolding is_padded
padding_more xs x =
    rw (get_or-take 12 (xs ++ (x ∷ [])) 6 0 (omega arith)) (elim (Bool-cases (ltb (length xs) 7)) [
      | inl short ↦ padding_short xs x (get_or (xs ++ (x ∷ [])) 6 0) (ground arith)
      | inr long ↦
          rw (get_or-append xs (x ∷ []) 6 0 (ground arith)) (padding_on xs x (get_or xs 6 0))
    ])

footer_more :
    (xs : List ℕ) (x : ℕ)
    → (if ltb (length xs) 2040 then drop 2040 xs else drop 2040 xs ++ (x ∷ []))
      ≡ drop 2040 (xs ++ (x ∷ []))
footer_more xs x = rw (drop_more 2040 xs x) refl

-- One more byte.
view_more :
    (capture : Bool) (k : ℕ) (xs : List ℕ) (x : ℕ)
    → put_byte capture (length xs) x (view capture k xs) ≡ view capture k (xs ++ (x ∷ []))
unfolding put_byte view
view_more capture k xs x =
    rw
      (
        header_more xs x,
        erased_more xs x,
        padding_more xs x,
        footer_more xs x,
        captured_more capture xs x,
      )
      refl

-- More bytes.
pub view-append :
    (capture : Bool) (k : ℕ) (xs ys : List ℕ)
    → put_bytes capture (length xs) ys (view capture k xs) ≡ view capture k (xs ++ ys)
unfolding put_bytes
view-append capture k xs [] = rw (append_nil xs) refl
view-append capture k xs (y ∷ ys) =
    let next : length (xs ++ (y ∷ [])) ≡ suc (length xs) =
      omega (arith, length-append xs (y ∷ [])) in
    let all : (xs ++ (y ∷ [])) ++ ys ≡ xs ++ (y ∷ ys) = append_assoc xs (y ∷ []) ys in
    rw (view_more capture k xs y, ← next, ← all) (view-append capture k (xs ++ (y ∷ [])) ys)
