-- ===== src/SecurityCounter/Freshness/Take.antt =====
-- `security_counter_take`: a value that is handed out is not below the last one, and the state
-- that it leaves is safe above the new one.
use cc2530_zigbee.Base.{
  ℕ, zero, suc, ◌+◌, ◌*◌, ◌≤◌, ◌<◌, ◌≡◌, ◌≢◌, refl, ◌∙◌, sym, subst, inl, inr, false, ◌||◌, Option,
  none, some, List, length, get_or, arith, encode32, ltb, ◌==◌, Bool-cases, length-encode32,
}
use cc2530_zigbee.NvRecord.{max_record}
use cc2530_zigbee.NvRecord.Journal.{Journal}
use cc2530_zigbee.SecurityCounter.Defs.{
  Result, ok, ready, Two, at, put, exhausted, Counter, current, commit, top, ready_result, caller,
}
use cc2530_zigbee.SecurityCounter.Operations.{
  issue, range_end, enlarged, enlarge, draw, take_checked, take_value,
}
use cc2530_zigbee.SecurityCounter.Bytes.{floor, floor-encode32, floor-encode32_ne, floor-take}
use cc2530_zigbee.SecurityCounter.Freshness.Commit.{
  Durable, record_of, Committed, Checked, commit_cases, commit-Durable, current_cases, image,
}
use cc2530_zigbee.SecurityCounter.Freshness.Invariant.{
  Covered, Live, Safe, failed-Safe, Safe-Live, ready_result-ok, answered-Safe, Checked-Live,
  Checked-Durable,
}

range_end_bounds : (u : ℕ) → u < top → (u < range_end u) × (range_end u ≤ top)
range_end_bounds u h = ground arith

-- A range that is not used up has been recorded.
record_needed :
    (o : Option (ℕ × List ℕ)) (domain generation : ℕ) (next until : Two)
    → Covered o generation next until
    → at next domain ≢ at until domain
    → (g : ℕ) × (bytes : List ℕ) × (o ≡ some (g, bytes))
record_needed none domain generation next until v ne = absurd (ne (ground arith))
record_needed (some (g, bytes)) domain generation next until v ne = (g, bytes, refl)

module _ {j : Journal} where
  -- What a call leaves behind, by the value that it handed out for the domain.
  abbrev pub Taken : ℕ → Two → Option ℕ → Counter j → Type 0
  Taken domain above none c = Safe above c
  Taken domain above (some v) c =
      (at above domain ≤ v) × (v < top) × Safe (put above domain (v + 1)) c

  -- In a range that is not used up the next value is fresh.
  issue-Taken :
      (domain : ℕ) (above : Two) (c : Counter j) (g : ℕ) (bytes : List ℕ)
      → domain ≤ 1
      → c.state ≡ ready
      → length c.blob ≡ max_record
      → Live above c
      → record_of c ≡ some (g, bytes)
      → at c.next domain < at c.until domain
      → Taken domain above (issue domain c).1 (issue domain c).2
  unfolding issue
  issue-Taken zero above c g bytes le e l live r lt = ground arith
  issue-Taken (suc zero) above c g bytes le e l live r lt = ground arith
  issue-Taken (suc (suc d)) above c g bytes le e l live r lt = absurd (omega arith)

  -- The counter as `commit` finds it, with the end of the new range in the blob.
  abbrev staged : ℕ → Counter j → Counter j
  staged domain c = record c {
    blob = encode32 c.blob (8 + 4 * domain) (range_end (at c.until domain));
  }

  -- The floors of the staged blob: the new end for the domain, the old floor for the other.
  staged_floors :
      (domain : ℕ) (above : Two) (c : Counter j)
      → domain ≤ 1
      → length c.blob ≡ max_record
      → Live above c
      → at c.until domain < top
      → let end = range_end (at c.until domain) in
        (floor (staged domain c).blob 0 ≡ (put c.until domain end).nwk)
        × (floor (staged domain c).blob 1 ≡ (put c.until domain end).aps)
  staged_floors zero above c le l live lt =
      let end = range_end_bounds c.until.nwk lt in
      (
        floor-encode32 c.blob 0 _ l le (omega arith),
        floor-encode32_ne c.blob 0 1 _ (inl (omega arith)) ∙ live.blob_floors.1,
      )
  staged_floors (suc zero) above c le l live lt =
      let end = range_end_bounds c.until.aps lt in
      (
        floor-encode32_ne c.blob 1 0 _ (inr (omega arith)) ∙ live.blob_floors.0,
        floor-encode32 c.blob 1 _ l le (omega arith),
      )
  staged_floors (suc (suc d)) above c le l live lt = absurd (omega arith)

  -- The state in which `security_counter_take` enters the new range, after a commit that answered ok.
  abbrev entered : ℕ → Counter j → Counter j → Counter j
  entered domain c d = record d { until = put d.until domain (range_end (at c.until domain)) }

  entered-Live :
      (domain : ℕ) (above : Two) (c d : Counter j)
      → domain ≤ 1
      → length c.blob ≡ max_record
      → Live above c
      → at c.until domain < top
      → Committed (staged domain c) (ok, d)
      → Live above (entered domain c d)
  entered-Live domain above c d le l live lt end = record {
    nwk_order = ground (arith, range_end_bounds (at c.until domain) lt);
    aps_order = ground (arith, range_end_bounds (at c.until domain) lt);
    blob_floors = ground (arith, staged_floors domain above c le l live lt);
    covered =
        subst (λ r. Covered r d.generation d.next (entered domain c d).until) (sym stored)
          (ground arith, ground (arith, floors, kept 0), ground (arith, floors, kept 1));
  }
    where
      stored : record_of d ≡ some (d.generation, image (staged domain c))
      stored = ground arith

      kept : (e : ℕ) → e ≤ 1 → floor (image (staged domain c)) e ≡ floor (staged domain c).blob e
      kept e h = floor-take (get_or (staged domain c).blob 5 0) e (staged domain c).blob h

      floors :
          (floor (staged domain c).blob 0
            ≡ (put c.until domain (range_end (at c.until domain))).nwk)
          × (floor (staged domain c).blob 1
              ≡ (put c.until domain (range_end (at c.until domain))).aps)
      floors = staged_floors domain above c le l live lt

  enlarged-Taken :
      (domain : ℕ) (above : Two) (c : Counter j) (p : Result × Counter j)
      → domain ≤ 1
      → length c.blob ≡ max_record
      → Live above c
      → at c.until domain < top
      → Committed (staged domain c) p
      → Durable (record_of p.1) above
      → Taken domain above
          (enlarged domain (range_end (at c.until domain)) p).1
          (enlarged domain (range_end (at c.until domain)) p).2
  unfolding enlarged
  enlarged-Taken domain above c (ok, d) le l live lt end durable =
      issue-Taken domain above (entered domain c d) d.generation (image (staged domain c)) le
        (ground arith)
        (ground (arith, length-encode32 c.blob (8 + 4 * domain) (range_end (at c.until domain))))
        (entered-Live domain above c d le l live lt end) (ground arith)
        (ground (arith, range_end_bounds (at c.until domain) lt))
  enlarged-Taken domain above c (r, d) le l live lt end durable =
      failed-Safe above d (ground arith) (ground arith)
        (ground (arith, length-encode32 c.blob (8 + 4 * domain) (range_end (at c.until domain))))
        durable

  -- The refill and what follows it, after `current`.
  enlarge-Taken :
      (domain limit : ℕ) (above : Two) (c : Counter j) (p : Result × Counter j)
      → domain ≤ 1
      → Safe above c
      → c.state ≡ ready
      → at c.until domain < top
      → Checked c p
      → Taken domain above (enlarge domain limit p).1 (enlarge domain limit p).2
  unfolding enlarge
  enlarge-Taken domain limit above c (ok, d) le s e lt same =
      let live = Checked-Live above c (ok, d) same (Safe-Live above c e s) in
      let next : at d.until domain < top = rw same.1 lt in
      let l : length d.blob ≡ max_record = rw same.2 s.blob_length in
      enlarged-Taken domain above d (commit limit (staged domain d)) le l live next
        (commit_cases limit (staged domain d))
        (commit-Durable limit (staged domain d) above
          (ground (
            arith,
            staged_floors domain above d le l live next,
            range_end_bounds (at d.until domain) next,
          ))
          (Checked-Durable above c (ok, d) same s.durable))
  enlarge-Taken domain limit above c (r, d) le s e lt same =
      failed-Safe above d (ground arith) (ground arith) (ground (arith, s.blob_length))
        (Checked-Durable above c (r, d) same s.durable)

  draw-Taken :
      (domain limit : ℕ) (above : Two) (c : Counter j)
      → domain ≤ 1
      → Safe above c
      → c.state ≡ ready
      → Taken domain above (draw domain limit c).1 (draw domain limit c).2
  unfolding draw
  draw-Taken domain limit above c le s e =
      elim (Bool-cases (at c.next domain == at c.until domain)) [
        | inl used ↦ rw used (elim (Bool-cases (at c.until domain == top)) [
          | inl last ↦ rw last (answered-Safe above c exhausted s e)
          | inr more ↦ rw more (
              enlarge-Taken domain limit above c (current c) le s e (below_top more)
                (current_cases c))
        ])
        | inr left ↦ rw left (from_range left)
      ]
    where
      live : Live above c
      live = Safe-Live above c e s

      below_top : (at c.until domain == top) ≡ false → at c.until domain < top
      below_top more = ground arith

      from_range :
          (at c.next domain == at c.until domain) ≡ false
          → Taken domain above (issue domain c).1 (issue domain c).2
      from_range left =
          let (g, bytes, r) =
            record_needed (record_of c) domain c.generation c.next c.until live.covered
              (ground arith) in
          issue-Taken domain above c g bytes le e s.blob_length live r (ground arith)

  take_checked-Taken :
      (reserved_end domain : ℕ) (value : Option ℕ) (limit : ℕ) (r : Result) (above : Two)
      (c : Counter j)
      → Safe above c
      → ready_result c ≡ r
      → let (_, v, d) = take_checked reserved_end domain value limit r c in Taken domain above v d
  unfolding take_checked
  take_checked-Taken reserved_end domain none limit ok above c s e = s
  take_checked-Taken reserved_end domain (some address) limit ok above c s e =
      elim (Bool-cases (ltb 1 domain || limit == 0)) [
        | inl bad ↦ rw bad s
        | inr good ↦ rw good (elim (Bool-cases (caller reserved_end address 4)) [
          | inl own ↦
              rw own
                (draw-Taken domain limit above c (ground arith) s (ready_result-ok above c s e))
          | inr foreign ↦ rw foreign s
        ])
      ]
  take_checked-Taken reserved_end domain value limit r above c s e = s

  -- `security_counter_take` on a safe state hands out nothing and leaves it safe, or hands out a
  -- value that is not below the last one of its domain, and leaves a state safe above the new one.
  pub take_value-Taken :
      (reserved_end domain : ℕ) (value : Option ℕ) (limit : ℕ) (above : Two) (c : Counter j)
      → Safe above c
      → let (_, v, d) = take_value reserved_end domain value limit c in Taken domain above v d
  unfolding take_value
  take_value-Taken reserved_end domain value limit above c s =
      take_checked-Taken reserved_end domain value limit (ready_result c) above c s refl
