-- ===== src/NvRecord/Filling.antt =====
-- The pages between the erase and the commit word of `nv_record_replace` of src/nv_record.c.
use cc2530_zigbee.Base.{
  ℕ, ◌+◌, ◌-◌, ◌≤◌, ◌≡◌, refl, sym, ap, ◌∙◌, List, ◌++◌, length, take, drop, replicate, get_or,
  arith, length-append, take-append_ge, drop-append_ge, take-replicate, drop-replicate,
  append_assoc, take-append-drop,
}
use cc2530_zigbee.NvRecord.{max_record}
use cc2530_zigbee.NvRecord.Flash.{commit_word, page_size}
use cc2530_zigbee.NvRecord.Outcome.{IsDead, uncommitted-IsDead}

-- The page after its erase.
abbrev pub blank : List ℕ
blank = replicate page_size 255

pub blank-IsDead :
    (xs : List ℕ) → length xs ≡ page_size → drop 2044 xs ≡ drop 2044 blank → IsDead xs
blank-IsDead xs size e = uncommitted-IsDead xs size (λ z.
    let w : commit_word ≡ replicate 4 255 = sym z ∙ e ∙ drop-replicate 2048 2044 4 255 refl in
    let first : 0x43 ≡ 255 = ap (λ t. get_or t 0 0) w in absurd (omega arith))

-- Behind the content the padding is what the erase has left.
pub filled :
    (content : List ℕ) (r k : ℕ)
    → length content + r ≡ page_size
    → length content ≤ k
    → k ≤ page_size
    → take k (content ++ replicate r 255) ++ drop k blank ≡ content ++ replicate r 255
filled content r k h low high =
    let over = k - length content in
    let one : drop k (content ++ replicate r 255) ≡ replicate (2048 - k) 255 =
      drop-append_ge k over content (replicate r 255) (omega arith)
      ∙ drop-replicate r over (2048 - k) 255 (omega arith) in
    let two : drop k blank ≡ replicate (2048 - k) 255 =
      drop-replicate 2048 k (2048 - k) 255 (omega arith) in
    rw (two, ← one) (take-append-drop k (content ++ replicate r 255))

-- The content and its padding without the footer.
pub front_of :
    (head data' : List ℕ)
    → length head ≡ 12
    → length data' ≤ max_record
    → take 2040 ((head ++ data') ++ replicate (2036 - length data') 255)
      ≡ head ++ (data' ++ replicate (2028 - length data') 255)
front_of head data' h low =
    let len = length-append head data' in
    take-append_ge 2040 (2028 - length data') (head ++ data') (replicate (2036 - length data') 255)
      (omega arith)
    ∙ ap (λ t. (head ++ data') ++ t)
        (take-replicate (2036 - length data') (2028 - length data') 8 255 (omega arith))
    ∙ append_assoc head data' (replicate (2028 - length data') 255)
