-- ===== src/NwkParent/Entering.antt =====
-- What nwk_candidates_consider of src/nwk_candidates.c does to the table.
use cc2530_zigbee.Base.{
  ℕ, ◌≤◌, ◌≡◌, ◌≢◌, refl, sym, ap, ◌∙◌, Bool, true, false, ◌==◌, if◌then◌else◌, Option, none, some,
  List, [], ◌∷◌, ◌++◌, length, length-append, Source, arith, Bool-cases, inl, inr,
}
use cc2530_zigbee.NwkParent.{Candidate, Candidates, TableResult, full, capacity, valid_table}
use cc2530_zigbee.NwkParent.Consider.{
  same_identity, is_eligible, Heard, rejected, heard, hear, replace, enter, record_heard, consider,
}
use cc2530_zigbee.NwkParent.Identity.{
  find, find_same, Distinct, AllEligible, entered, find-append, Distinct-append, AllEligible-append,
}
use cc2530_zigbee.NwkParent.Tables.{replace_none, replace_some}

-- A table that is valid, without two entries of one identity, of entries that were eligible.
pub record IsWellFormed (t : Candidates) : Type 0 where
  pub valid : valid_table t ≡ true
  pub distinct : Distinct t.entries
  pub eligible : AllEligible t t.entries

record Entered (t : Candidates) (x : Candidate) (o : TableResult × Candidates) : Type 0 where
  well_formed : IsWellFormed o.1
  when_full : o.0 ≡ full → o.1 ≡ t
  finds :
      o.0 ≢ full → (k : Candidate) → find k o.1.entries ≡ entered x (is_eligible t x) t.entries k

-- A table stays eligible under the fields that eligibility reads.
AllEligible-entries :
    (t : Candidates) (es fs : List Candidate)
    → AllEligible t fs
    → AllEligible (record t { entries = es }) fs
unfolding is_eligible
AllEligible-entries t es [] a = tt
AllEligible-entries t es (e ∷ fs) a = (a.0, AllEligible-entries t es fs a.1)

with_entries :
    (t : Candidates) (es : List Candidate)
    → valid_table t ≡ true
    → length es ≤ 4
    → Distinct es
    → AllEligible t es
    → IsWellFormed (record t { entries = es })
unfolding valid_table
with_entries t es v le d a = record {
  valid = ground arith;
  distinct = d;
  eligible = AllEligible-entries t es es a;
}

valid_length : (t : Candidates) → valid_table t ≡ true → length t.entries ≤ 4
unfolding valid_table
valid_length t v = ground arith

not_entered :
    (t : Candidates) (x : Candidate)
    → find x t.entries ≡ none
    → is_eligible t x ≡ false
    → (k : Candidate) → find k t.entries ≡ entered x (is_eligible t x) t.entries k
not_entered t x absent el k = elim (Bool-cases (same_identity x k)) [
  | inl q ↦ rw (el, q) (sym (find_same x k t.entries q) ∙ absent)
  | inr q ↦ rw q refl
]

-- The candidate is of no entry.
enter_new :
    (t : Candidates) (x : Candidate)
    → IsWellFormed t
    → find x t.entries ≡ none
    → Entered t x (enter t x (is_eligible t x) none)
unfolding enter
enter_new t x w absent = elim (Bool-cases (is_eligible t x)) [
  | inr el ↦ rw el (record {
    well_formed = w;
    when_full = λ q. refl;
    finds = λ _ k. not_entered t x absent el k;
  })
  | inl el ↦ elim (Bool-cases (length t.entries == capacity)) [
    | inl most ↦
        rw (el, most)
          (record { well_formed = w; when_full = λ q. refl; finds = λ ne. absurd (ne refl) })
    | inr less ↦
        let longer = t.entries ++ x ∷ [] in
        let le : length longer ≤ 4 =
          ground (arith, valid_length t w.valid, length-append t.entries (x ∷ [])) in
        rw (el, less)
          (record {
            well_formed =
                with_entries t longer w.valid le (Distinct-append x t.entries absent w.distinct)
                  (AllEligible-append t x t.entries el w.eligible);
            when_full = λ q. cc;
            finds = λ _ k. find-append k x t.entries absent ∙ rw el refl;
          })
  ]
]

enter-Entered :
    (t : Candidates) (x : Candidate)
    → IsWellFormed t
    → (m : Option (TableResult × List Candidate)) → replace x (is_eligible t x) t.entries ≡ m
    → Entered t x (enter t x (is_eligible t x) m)
unfolding enter
enter-Entered t x w none h = enter_new t x w (replace_none x (is_eligible t x) t.entries h)
enter-Entered t x w (some (r, es)) h =
    let g = replace_some t x t.entries r es w.distinct w.eligible h in
    let le : length es ≤ 4 = omega (arith, g.no_longer, valid_length t w.valid) in
    record {
      well_formed = with_entries t es w.valid le g.distinct g.eligible;
      when_full = λ q. absurd (g.not_full q);
      finds = λ _. g.finds;
    }

record_heard-IsWellFormed :
    (t : Candidates) (o : Heard) → IsWellFormed t → IsWellFormed (record_heard t o).1
unfolding record_heard
record_heard-IsWellFormed t (rejected status) w = w
record_heard-IsWellFormed t (heard x) w =
    (enter-Entered t x w (replace x (is_eligible t x) t.entries) refl).well_formed

-- Whatever is received, `nwk_candidates_consider` keeps a table valid, with at most one entry of an
-- identity, and all its entries eligible.
pub consider-IsWellFormed :
    (t : Candidates) (channel crc_valid : ℕ) (body : Source)
    → IsWellFormed t
    → IsWellFormed (consider t channel crc_valid body).1
unfolding consider
consider-IsWellFormed t channel crc_valid body w =
    record_heard-IsWellFormed t (hear t channel crc_valid body) w

abbrev pub is_full : TableResult → Bool
is_full full = true
is_full r = false

found_unless_full :
    (t : Candidates) (x k : Candidate) (o : TableResult × Candidates)
    → Entered t x o
    → find k o.1.entries
      ≡ (if is_full o.0 then find k t.entries else entered x (is_eligible t x) t.entries k)
found_unless_full t x k (full, t') e = ap (λ u. find k u.entries) (e.when_full refl)
found_unless_full t x k (_, t') e = e.finds (λ q. cc) k

-- A body in which the guards and decoders find the candidate `x` is entered in a well-formed table
-- as in a map from identities. Unless the answer is that the table is full, the entry of the
-- identity of `x` is then `x` itself if `x` is eligible, and none otherwise; those of all other
-- identities are what they were, and so are all if the table is full.
pub find-consider :
    (t : Candidates) (channel crc_valid : ℕ) (body : Source) (x k : Candidate)
    → IsWellFormed t
    → hear t channel crc_valid body ≡ heard x
    → find k (consider t channel crc_valid body).1.entries ≡ (
        if is_full (consider t channel crc_valid body).0
        then find k t.entries
        else if same_identity x k
        then (if is_eligible t x then some x else none)
        else find k t.entries)
unfolding consider record_heard
find-consider t channel crc_valid body x k w h =
    let e = enter-Entered t x w (replace x (is_eligible t x) t.entries) refl in
    rw h (found_unless_full t x k _ e)
