-- ===== src/ZclAttributes/Table.antt =====
-- Which attribute tables pass the check.
use cc2530_zigbee.Base.{ℕ, ◌≤◌, ◌<◌, ◌≡◌, ◌≢◌, ◌↔◌, ◌⊎◌, refl, false, some, List, [], ◌∷◌, arith}
use cc2530_zigbee.ZclFrame.{ok}
use cc2530_zigbee.ZclAttributes.{
  Attribute, AttributeSet, no_table, declared, seen, bad_entry, check_entries, check_set,
}

-- An entry may be read or not, and in a standard cluster has one of the ids of the two ranges.
abbrev pub Declarable : ℕ → Attribute → Type 0
Declarable specific a =
    (a.readable ≤ 1) × ((specific ≢ 0) ⊎ (a.id < 0x5000) ⊎ ((0xf000 ≤ a.id) × (a.id ≢ 0xffff)))

abbrev pub Absent : ℕ → List Attribute → Type 0
Absent id [] = Unit {0}
Absent id (a ∷ rest) = (a.id ≢ id) × Absent id rest

-- Every entry is declarable, and no id is there twice.
abbrev pub WellFormed : ℕ → List Attribute → Type 0
WellFormed specific [] = Unit {0}
WellFormed specific (a ∷ rest) = Declarable specific a × Absent a.id rest × WellFormed specific rest

-- No entry has one of the ids.
abbrev Apart : List ℕ → List Attribute → Type 0
Apart prior [] = Unit {0}
Apart prior (a ∷ rest) = (seen a.id prior ≡ false) × Apart prior rest

Apart-cons :
    (id : ℕ) (prior : List ℕ) (entries : List Attribute)
    → Apart (id ∷ prior) entries ↔ (Absent id entries × Apart prior entries)
Apart-cons id prior [] = ground arith
Apart-cons id prior (a ∷ rest) = ground (arith, Apart-cons id prior rest)

Apart-nil : (entries : List Attribute) → Apart [] entries
Apart-nil [] = tt
Apart-nil (a ∷ rest) = (refl, Apart-nil rest)

bad_entry_iff :
    (specific : ℕ) (a : Attribute) → (bad_entry specific a ≡ false) ↔ Declarable specific a
bad_entry_iff specific a = ground arith

check_entries_iff :
    (specific : ℕ) (prior : List ℕ) (entries : List Attribute)
    → (check_entries specific prior entries ≡ ok)
      ↔ (WellFormed specific entries × Apart prior entries)
unfolding check_entries
check_entries_iff specific prior [] = ground arith
check_entries_iff specific prior (a ∷ rest) = ground (
  arith,
  bad_entry_iff specific a,
  check_entries_iff specific (a.id ∷ prior) rest,
  Apart-cons a.id prior rest,
)

-- `zcl_attr_set_check` accepts exactly the sets of at most 16 entries with a side and a namespace
-- flag of 0 or 1 and a table where there are entries, whose entries are declarable with ids that
-- all differ.
pub check_set_iff :
    (s : AttributeSet)
    → (check_set (some s) ≡ ok) ↔ (
        (s.count ≤ 16)
        × (s.side ≤ 1)
        × (s.manufacturer_specific ≤ 1)
        × ((no_table s.attributes ≡ false) ⊎ (s.count ≡ 0))
        × WellFormed s.manufacturer_specific (declared s.attributes s.count))
unfolding check_set
check_set_iff s = ground (
  arith,
  check_entries_iff s.manufacturer_specific [] (declared s.attributes s.count),
  Apart-nil (declared s.attributes s.count),
)
