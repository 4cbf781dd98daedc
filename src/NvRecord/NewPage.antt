-- ===== src/NvRecord/NewPage.antt =====
-- The page that `nv_record_replace` of src/nv_record.c writes is one that `scan_page` accepts.
use cc2530_zigbee.Base.{
  ℕ, zero, suc, ◌+◌, ◌-◌, ◌^◌, ◌≤◌, ◌<◌, ◌≡◌, ◌≢◌, refl, sym, ◌∙◌, bit_xor, true, false, ltb, ◌==◌,
  ◌!=◌, List, [], ◌∷◌, ◌++◌, length, take, drop, replicate, get_or, encode32, decode32, u32, arith,
  length-append, length-replicate, take-append, drop-append, append_assoc, decode32-encode32,
  decode32-append, length-encode32, drop-append_ge, get_or-take,
}
use cc2530_zigbee.NvRecord.{page_valid, max_record}
use cc2530_zigbee.NvRecord.Flash.{commit_word}
use cc2530_zigbee.NvRecord.Crc.{crc_update, crc_update-append}
use cc2530_zigbee.NvRecord.Scan.{magic_word, differs, page_state}
use cc2530_zigbee.NvRecord.View.{view, all_erased, is_padded}
use cc2530_zigbee.NvRecord.Read.{seen, state_of, generation_of, length_of, body_of}
use cc2530_zigbee.NvRecord.Replace.{new_header, new_crc}

agrees : (a b : ℕ) → a ≡ b → (a != b) ≡ false
agrees a b h = ground arith

-- All but the footer.
unfoldable pub front : List ℕ → ℕ → List ℕ
front data' g = new_header (length data') g ++ (data' ++ replicate (2028 - length data') 255)

unfoldable pub new_page : List ℕ → ℕ → List ℕ
new_page data' g = front data' g ++ (new_crc (new_header (length data') g) data' ++ commit_word)

pub length-new_header : (n g : ℕ) → length (new_header n g) ≡ 12
unfolding new_header
length-new_header n g = length-encode32 (magic_word ++ (1 ∷ 0 ∷ n ∷ 0 ∷ 0 ∷ 0 ∷ 0 ∷ 0 ∷ [])) 8 g

pub length-new_crc : (head body : List ℕ) → length (new_crc head body) ≡ 4
unfolding new_crc
length-new_crc head body = length-encode32 (0 ∷ 0 ∷ 0 ∷ 0 ∷ []) 0 _

pub length-front :
    (data' : List ℕ) (g : ℕ) → length data' ≤ max_record → length (front data' g) ≡ 2040
unfolding front
length-front data' g h = omega (
  arith,
  length-append (new_header (length data') g) (data' ++ replicate (2028 - length data') 255),
  length-append data' (replicate (2028 - length data') 255),
  length-replicate {A = ℕ} (2028 - length data') 255,
  length-new_header (length data') g,
)

all_erased-replicate : (n : ℕ) → all_erased (replicate n 255) ≡ true
unfolding all_erased
all_erased-replicate zero = refl
all_erased-replicate (suc n) = all_erased-replicate n

module _ (data' : List ℕ) (g : ℕ) (low : length data' ≢ 0) (high : length data' ≤ max_record)
    (small : g < 2 ^ 32) (some_ : g ≢ 0) where
  abbrev pub head : List ℕ
  head = new_header (length data') g

  take-new_page : take 12 (new_page data' g) ≡ head
  unfolding new_page front
  take-new_page =
      rw
        (append_assoc head (data' ++ replicate (2028 - length data') 255)
          (new_crc head data' ++ commit_word))
        (take-append head _ 12 (length-new_header (length data') g))

  pub drop-new_page : drop 2040 (new_page data' g) ≡ new_crc head data' ++ commit_word
  unfolding new_page
  drop-new_page = drop-append (front data' g) _ 2040 (length-front data' g high)

  take-new_page-front : take 2040 (new_page data' g) ≡ front data' g
  unfolding new_page
  take-new_page-front = take-append (front data' g) _ 2040 (length-front data' g high)

  pub generation_of-new_page : generation_of (new_page data' g) ≡ g
  unfolding generation_of new_header
  generation_of-new_page = rw take-new_page (
      decode32-encode32 (magic_word ++ (1 ∷ 0 ∷ length data' ∷ 0 ∷ 0 ∷ 0 ∷ 0 ∷ 0 ∷ [])) 8 g
        (omega arith) small)

  pub length_of-new_page : length_of (new_page data' g) ≡ length data'
  unfolding length_of new_header encode32
  length_of-new_page = rw take-new_page refl

  drop-new_page-head :
      drop 12 (new_page data' g)
      ≡ data' ++ (replicate (2028 - length data') 255 ++ (new_crc head data' ++ commit_word))
  unfolding new_page front
  drop-new_page-head =
      rw
        (
          append_assoc head (data' ++ replicate (2028 - length data') 255)
              (new_crc head data' ++ commit_word),
          append_assoc data' (replicate (2028 - length data') 255)
              (new_crc head data' ++ commit_word),
        )
        (drop-append head _ 12 (length-new_header (length data') g))

  pub body_of-new_page : body_of (new_page data' g) ≡ data'
  unfolding body_of
  body_of-new_page =
      rw (length_of-new_page, drop-new_page-head) (take-append data' _ (length data') refl)

  padded : is_padded (new_page data' g) ≡ true
  unfolding is_padded front length_of
  padded =
      let size : get_or (new_page data' g) 6 0 ≡ length data' =
        sym (get_or-take 12 (new_page data' g) 6 0 (omega arith)) ∙ length_of-new_page in
      let gap : drop (12 + length data') (front data' g) ≡ replicate (2028 - length data') 255 =
        drop-append_ge (12 + length data') (length data') head
          (data' ++ replicate (2028 - length data') 255)
          (omega (arith, length-new_header (length data') g))
        ∙ drop-append data' _ (length data') refl in
      rw (size, take-new_page-front, gap) (all_erased-replicate (2028 - length data'))

  crc_lem :
      new_crc head data'
      ≡ encode32
          (0 ∷ 0 ∷ 0 ∷ 0 ∷ [])
          0
          (u32 (bit_xor (crc_update 0xffffffff (front data' g)) 0xffffffff))
  unfolding new_crc front
  crc_lem =
      rw
        (
          crc_update-append 0xffffffff head (data' ++ replicate (2028 - length data') 255),
          crc_update-append (crc_update 0xffffffff head) data'
              (replicate (2028 - length data') 255),
        )
        refl

  crc_matches :
      decode32 (drop 2040 (new_page data' g)) 0
      ≡ u32 (bit_xor (crc_update 0xffffffff (front data' g)) 0xffffffff)
  crc_matches =
      rw
        (
          drop-new_page,
          decode32-append (new_crc head data') commit_word 0
              (omega (arith, length-new_crc head data')),
          crc_lem,
        )
        (decode32-encode32 (0 ∷ 0 ∷ 0 ∷ 0 ∷ []) 0 _ (omega arith) (omega arith))

  not_erased : all_erased (new_page data' g) ≡ false
  unfolding all_erased new_page front new_header encode32
  not_erased = refl

  committed : differs (drop 2040 (new_page data' g)) 4 commit_word ≡ false
  unfolding differs new_crc encode32
  committed = rw drop-new_page refl

  headed :
      (differs (take 12 (new_page data' g)) 0 magic_word ≡ false)
      × ((get_or (take 12 (new_page data' g)) 4 0 != 1) ≡ false)
      × ((get_or (take 12 (new_page data' g)) 5 0 != 0) ≡ false)
      × ((get_or (take 12 (new_page data' g)) 7 0 != 0) ≡ false)
  unfolding differs new_header encode32
  headed = rw take-new_page (refl, refl, refl, refl)

  length_byte : get_or (take 12 (new_page data' g)) 6 0 ≡ length data'
  unfolding length_of
  length_byte = length_of-new_page

  generation_word : decode32 (take 12 (new_page data' g)) 8 ≡ g
  unfolding generation_of
  generation_word = generation_of-new_page

  -- It is judged valid.
  pub state_of-new_page : state_of (new_page data' g) ≡ page_valid
  unfolding state_of seen view page_state
  state_of-new_page =
      let (magic, version, b5, b7) = headed in
      let size : get_or (take 12 (new_page data' g)) 6 0 ≡ length data' = length_byte in
      let gen : decode32 (take 12 (new_page data' g)) 8 ≡ g = generation_word in
      let s : (length data' == 0) ≡ false = ground arith in
      let t : ltb max_record (length data') ≡ false = ground arith in
      let u : (g == 0) ≡ false = ground arith in
      let crc : (decode32 (drop 2040 (new_page data' g)) 0
            != u32 (bit_xor (crc_update 0xffffffff (front data' g)) 0xffffffff))
          ≡ false =
        agrees _ _ crc_matches in
      rw
        (
          not_erased, committed, magic, version, b5, b7, size, gen, padded, s, t, u,
          take-new_page-front, crc,
        )
        refl

  -- The page that a replacement by 1 to 128 bytes composes under a generation other than 0 is one that
  -- a scan judges valid, with that generation, that length, and the bytes as its record.
  pub new_page_ok :
      (state_of (new_page data' g) ≡ page_valid)
      × (generation_of (new_page data' g) ≡ g)
      × (length_of (new_page data' g) ≡ length data')
      × (body_of (new_page data' g) ≡ data')
  new_page_ok = (state_of-new_page, generation_of-new_page, length_of-new_page, body_of-new_page)
