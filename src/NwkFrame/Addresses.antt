-- ===== src/NwkFrame/Addresses.antt =====
-- The optional IEEE addresses behind the fixed part of a frame: two fields of eight bytes, each
-- present if its flag is set.
use cc2530_zigbee.Base.{
  ℕ, zero, suc, ◌+◌, ◌≡◌, refl, sym, ap, ◌∙◌, Bool, true, false, if◌then◌else◌, List, [], ◌∷◌, ◌++◌,
  length, take, drop, replicate, arith, length-append, take-append, drop-append, take-append-drop,
}
use mathlib.Core.List.{append_assoc}

abbrev pub no_address : List ℕ
no_address = replicate 8 0

-- The optional part of an emitted frame: what its flags select from it.
pub addresses_back :
    (d s : Bool) (x y p : List ℕ)
    → length x ≡ 8
    → length y ≡ 8
    → (d ≡ false → x ≡ no_address)
    → (s ≡ false → y ≡ no_address)
    → let rest = (if d then x else []) ++ ((if s then y else []) ++ p) in
      ((if d then take 8 rest else no_address) ≡ x)
      × ((if s then take 8 (drop (if d then 8 else 0) rest) else no_address) ≡ y)
      × (drop ((if d then 8 else 0) + (if s then 8 else 0)) rest ≡ p)
      × (length rest ≡ (if d then 8 else 0) + (if s then 8 else 0) + length p)
addresses_back true true x y p hx hy nx ny = (
  take-append x (y ++ p) 8 hx,
  rw (drop-append x (y ++ p) 8 hx) (take-append y p 8 hy),
  rw (← append_assoc x y p) (drop-append (x ++ y) p 16 (omega (arith, length-append x y))),
  omega (arith, length-append x (y ++ p), length-append y p),
)
addresses_back true false x y p hx hy nx ny =
    (take-append x p 8 hx, sym (ny refl), drop-append x p 8 hx, omega (arith, length-append x p))
addresses_back false true x y p hx hy nx ny =
    (sym (nx refl), take-append y p 8 hy, drop-append y p 8 hy, omega (arith, length-append y p))
addresses_back false false x y p hx hy nx ny = (sym (nx refl), sym (ny refl), refl, omega arith)

drop-nil {ℓ} : (A : Type ℓ) (n : ℕ) → drop {A = A} n [] ≡ []
drop-nil A zero = refl
drop-nil A (suc n) = refl

pub drop-drop {ℓ} :
    {A : Type ℓ} (n m k : ℕ) (xs : List A) → k ≡ n + m → drop k xs ≡ drop m (drop n xs)
drop-drop zero m k xs e = ap (λ t. drop t xs) (omega arith)
drop-drop {A} (suc n) m k [] e = drop-nil A k ∙ sym (drop-nil A m)
drop-drop (suc n) m zero (x ∷ xs) e = absurd (omega arith)
drop-drop (suc n) m (suc k) (x ∷ xs) e = drop-drop n m k xs (omega arith)

-- What the flags select, put together again, is the whole.
pub addresses_again :
    (d s : Bool) (rest : List ℕ)
    → (if d then (if d then take 8 rest else no_address) else [])
        ++ ((if s then (if s then take 8 (drop (if d then 8 else 0) rest) else no_address) else [])
            ++ drop ((if d then 8 else 0) + (if s then 8 else 0)) rest)
      ≡ rest
addresses_again true true rest =
    rw (drop-drop 8 8 16 rest refl, take-append-drop 8 (drop 8 rest)) (take-append-drop 8 rest)
addresses_again true false rest = take-append-drop 8 rest
addresses_again false true rest = take-append-drop 8 rest
addresses_again false false rest = refl
