-- ===== src/ZclDispatch/Ascending.antt =====
-- What discover of src/zcl_dispatch.c lists: the attributes in the order of their ids.
use cc2530_zigbee.Base.{
  ℕ, ◌+◌, ◌*◌, ◌≤◌, ◌<◌, ◌≡◌, ◌≢◌, ◌⊎◌, inl, inr, ap, subst, true, false, ◌&&◌, leb, Option, none,
  some, List, [], ◌∷◌, ◌++◌, length, Bool-cases, arith,
}
use cc2530_zigbee.ZclFrame.{Result, buffer_too_small, unsupported_data_type}
use cc2530_zigbee.ZclAttributes.{Attribute}
use cc2530_zigbee.ZclValue.{supported}
use cc2530_zigbee.ZclDispatch.Discover.{nearer, next_from, Listing}

-- `a` is an entry.
abbrev pub IsEntry : Attribute → List Attribute → Type 0
IsEntry a [] = a ≢ a
IsEntry a (e ∷ es) = (e ≡ a) ⊎ IsEntry a es

-- No entry has an id from `start` up to below `bound`.
abbrev pub NoneBetween : ℕ → ℕ → List Attribute → Type 0
NoneBetween start bound [] = Unit {0}
NoneBetween start bound (e ∷ es) = ((e.id < start) ⊎ (bound ≤ e.id)) × NoneBetween start bound es

abbrev pub bound_of : Option Attribute → ℕ
bound_of none = 0x10000
bound_of (some a) = a.id

-- The ids are those of a uint16_t.
abbrev pub AreWords : List Attribute → Type 0
AreWords [] = Unit {0}
AreWords (e ∷ es) = (e.id < 0x10000) × AreWords es

-- The entry that is chosen has no other between it and the start.
pub record Next (start : ℕ) (chosen : Option Attribute) (es : List Attribute)
    (result : Option Attribute) : Type 0 where
  pub nearest : NoneBetween start (bound_of result) es
  pub bound : bound_of result ≤ bound_of chosen
  pub entry :
      (a : Attribute)
      → result ≡ some a
      → (chosen ≡ some a) ⊎ (IsEntry a es × (start ≤ a.id) × (a.id < 0x10000))

value_or : Attribute → Option Attribute → Attribute
value_or a none = a
value_or a (some b) = b

same_value : (a b : Attribute) → some a ≡ some b → a ≡ b
unfolding value_or
same_value a b q = ap (value_or a) q

nearer_bound :
    (start : ℕ) (chosen : Option Attribute) (e : Attribute)
    → e.id < 0x10000
    → (leb start e.id && nearer e chosen) ≡ true
    → (start ≤ e.id) × (e.id ≤ bound_of chosen)
nearer_bound start none e w t = (ground arith, ground arith)
nearer_bound start (some c) e w t = (ground arith, ground arith)

farther :
    (start : ℕ) (chosen : Option Attribute) (e : Attribute)
    → (leb start e.id && nearer e chosen) ≡ false
    → (e.id < start) ⊎ (bound_of chosen ≤ e.id)
farther start none e t = inl (ground arith)
farther start (some c) e t = elim (Bool-cases (leb start e.id)) [
  | inl u ↦ inr (ground arith)
  | inr u ↦ inl (ground arith)
]

weaker : (x start b c : ℕ) → b ≤ c → (x < start) ⊎ (c ≤ x) → (x < start) ⊎ (b ≤ x)
weaker x start b c le (inl h) = inl h
weaker x start b c le (inr h) = inr (omega arith)

pub next_from-Next :
    (start : ℕ) (chosen : Option Attribute) (es : List Attribute)
    → AreWords es
    → Next start chosen es (next_from start chosen es)
unfolding next_from
next_from-Next start chosen [] w = record {
  nearest = tt;
  bound = omega arith;
  entry = λ a q. inl q;
}
next_from-Next start chosen (e ∷ es) w = elim (Bool-cases (leb start e.id && nearer e chosen)) [
  | inl t ↦
      let n = next_from-Next start (some e) es w.1 in
      let (from, below) = nearer_bound start chosen e w.0 t in
      rw t (record {
        nearest = (inr n.bound, n.nearest);
        bound = omega (arith, n.bound);
        entry = λ a q. elim (n.entry a q) [
          | inl z ↦
              let here = same_value e a z in
              inr (
                inl here,
                subst (λ b. start ≤ b.id) here from,
                subst (λ b. b.id < 0x10000) here w.0,
              )
          | inr z ↦ inr (inr z.0, z.1, z.2)
        ];
      })
  | inr t ↦
      let n = next_from-Next start chosen es w.1 in
      rw t (record {
        nearest =
            (weaker e.id start _ (bound_of chosen) n.bound (farther start chosen e t), n.nearest);
        bound = n.bound;
        entry = λ a q. elim (n.entry a q) [ inl z ↦ inl z | inr z ↦ inr (inr z.0, z.1, z.2) ];
      })
]

-- The attributes listed from `start` on: each is the entry with the least id that is left.
abbrev pub Ascends : List Attribute → ℕ → List Attribute → Type 0
Ascends entries start [] = Unit {0}
Ascends entries start (a ∷ rest) =
    IsEntry a entries
    × (start ≤ a.id)
    × NoneBetween start a.id entries
    × (supported a.value.type ≡ true)
    × Ascends entries (a.id + 1) rest

-- The id behind the last one that is listed.
abbrev pub end_of : ℕ → List Attribute → ℕ
end_of start [] = start
end_of start (a ∷ rest) = end_of (a.id + 1) rest

-- What the loop adds to a listing, from `start` on.
pub record Lists (entries : List Attribute) (limit start budget count : ℕ) (listed : List Attribute)
    (l : Listing) (more : List Attribute) : Type 0 where
  pub whole : l.listed ≡ listed ++ more
  pub ascending : Ascends entries start more
  pub counted : l.count ≡ count + length more
  pub room : 3 * length more ≤ budget
  pub ended :
      ((l.complete ≡ 1) × NoneBetween (end_of start more) 0x10000 entries)
      ⊎ ((l.complete ≡ 0) × ((l.count ≡ limit) ⊎ (budget < 3 * length more + 3)))

-- An attribute of no supported type.
abbrev pub HasUnsupported : List Attribute → Type 0
HasUnsupported entries = (a : Attribute) × (IsEntry a entries × (supported a.value.type ≡ false))

abbrev pub Outcome : List Attribute → ℕ → ℕ → ℕ → ℕ → List Attribute → Result ⊎ Listing → Type 0
Outcome entries limit start budget count listed (inl r) =
    ((r ≡ buffer_too_small) × (count ≡ 0) × (limit ≢ 0) × (budget < 3))
    ⊎ ((r ≡ unsupported_data_type) × HasUnsupported entries)
Outcome entries limit start budget count listed (inr l) =
    (more : List Attribute) × Lists entries limit start budget count listed l more
