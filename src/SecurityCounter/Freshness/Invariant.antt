-- ===== src/SecurityCounter/Freshness/Invariant.antt =====
-- The invariant of the counters: with `above` one more than the last value handed out in each
-- domain (0 before the first), the values still to come are not below it, and neither are the
-- floors from which a restart would go on.
use cc2530_zigbee.Base.{
  ℕ, ◌≤◌, ◌<◌, ◌^◌, ◌≡◌, ◌≢◌, refl, sym, subst, Option, none, some, if◌then◌else◌, List, length,
  arith,
}
use cc2530_zigbee.NvRecord.{max_record}
use cc2530_zigbee.NvRecord.Journal.{Journal}
use cc2530_zigbee.SecurityCounter.Defs.{
  Result, ok, State, cold, unprovisioned, ready, failed, Two, Counter, ready_result, state,
  is_state,
}
use cc2530_zigbee.SecurityCounter.Bytes.{floor}
use cc2530_zigbee.SecurityCounter.Freshness.Commit.{Durable, record_of, Checked}

-- Before the first commit the record is missing; from then on its floors cover the live ranges.
abbrev pub Covered : Option (ℕ × List ℕ) → ℕ → Two → Two → Type 0
Covered none generation next until =
    (generation ≡ 0) × (next.nwk ≡ until.nwk) × (next.aps ≡ until.aps)
Covered (some (g, bytes)) generation next until =
    (generation ≢ 0) × (until.nwk ≤ floor bytes 0) × (until.aps ≤ floor bytes 1)

module _ {j : Journal} where
  pub record Live (above : Two) (c : Counter j) : Type 0 where
    pub nwk_order : (above.nwk ≤ c.next.nwk) × (c.next.nwk ≤ c.until.nwk) × (c.until.nwk < 2 ^ 32)
    pub aps_order : (above.aps ≤ c.next.aps) × (c.next.aps ≤ c.until.aps) × (c.until.aps < 2 ^ 32)
    pub blob_floors : (floor c.blob 0 ≡ c.until.nwk) × (floor c.blob 1 ≡ c.until.aps)
    pub covered : Covered (record_of c) c.generation c.next c.until

  -- What the state byte promises.
  abbrev pub Phase : Two → Counter j → State → Type 0
  Phase above c ready = Live above c
  Phase above c cold = c.generation ≡ 0
  Phase above c unprovisioned = (record_of c ≡ none) × (c.generation ≡ 0)
  Phase above c failed = c.result ≢ ok
  Phase above c _ = Unit {0}

  pub record Safe (above : Two) (c : Counter j) : Type 0 where
    pub blob_length : length c.blob ≡ max_record
    pub durable : Durable (record_of c) above
    pub phase : Phase above c c.state

  -- A failed operation is safe as long as the record is.
  pub failed-Safe :
      (above : Two) (c : Counter j)
      → c.state ≡ failed
      → c.result ≢ ok
      → length c.blob ≡ max_record
      → Durable (record_of c) above
      → Safe above c
  failed-Safe above c e bad l d = record {
    blob_length = l;
    durable = d;
    phase = subst (Phase above c) (sym e) bad;
  }

  pub Safe-Live : (above : Two) (c : Counter j) → c.state ≡ ready → Safe above c → Live above c
  Safe-Live above c e s = subst (Phase above c) e s.phase

  pub ready-Safe :
      (above : Two) (c : Counter j)
      → c.state ≡ ready
      → length c.blob ≡ max_record
      → Durable (record_of c) above
      → Live above c
      → Safe above c
  ready-Safe above c e l d live = record {
    blob_length = l;
    durable = d;
    phase = subst (Phase above c) (sym e) live;
  }

  -- `ready()` answers ok in the ready state only.
  ready_answer :
      (above : Two) (c : Counter j) (s : State)
      → Phase above c s
      → (if is_state s failed then c.result else if is_state s ready then ok else state) ≡ ok
      → s ≡ ready
  ready_answer above c failed p e = absurd (p e)
  ready_answer above c ready p e = refl
  ready_answer above c _ p e = cc

  pub ready_result-ok :
      (above : Two) (c : Counter j) → Safe above c → ready_result c ≡ ok → c.state ≡ ready
  ready_result-ok above c s e = ready_answer above c c.state s.phase e

  -- The result field alone does not matter in the ready state.
  pub answered-Safe :
      (above : Two) (c : Counter j) (r : Result)
      → Safe above c
      → c.state ≡ ready
      → Safe above (record c { result = r })
  answered-Safe above c r s e =
      let live = Safe-Live above c e s in
      ready-Safe above (record c { result = r }) e s.blob_length s.durable
        (record {
          nwk_order = live.nwk_order;
          aps_order = live.aps_order;
          blob_floors = live.blob_floors;
          covered = live.covered;
        })

  pub Checked-Live :
      (above : Two) (c : Counter j) (p : Result × Counter j)
      → Checked c p
      → Live above c
      → Live above p.1
  Checked-Live above c p same live = record {
    nwk_order = ground arith;
    aps_order = ground arith;
    blob_floors = rw same.2 (ground arith);
    covered = rw (same.4, same.3, same.0, same.1) live.covered;
  }

  pub Checked-Durable :
      (above : Two) (c : Counter j) (p : Result × Counter j)
      → Checked c p
      → Durable (record_of c) above
      → Durable (record_of p.1) above
  Checked-Durable above c p same durable = subst (λ r. Durable r above) (sym same.4) durable
