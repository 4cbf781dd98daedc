-- ===== src/SecurityCounter/Freshness/Commit.antt =====
-- The journal's part: what `current` and `commit` do to the recorded floors.
use cc2530_zigbee.Base.{
  ℕ, ◌+◌, ◌≤◌, ◌≡◌, ◌≢◌, ◌⊎◌, inl, inr, Option, none, some, List, get_or, take, arith,
}
use cc2530_zigbee.NvRecord.Journal.{Journal}
use cc2530_zigbee.SecurityCounter.Defs.{
  Result, ok, ready, failed, Two, Counter, finish, fail, check_loaded, current, check_committed,
  commit,
}
use cc2530_zigbee.SecurityCounter.Bytes.{floor, floor-take}

-- The recorded floors are not below the values in `above`, and there is no record before the
-- first value.
abbrev pub Durable : Option (ℕ × List ℕ) → Two → Type 0
Durable none above = (above.nwk ≡ 0) × (above.aps ≡ 0)
Durable (some (g, bytes)) above = (above.nwk ≤ floor bytes 0) × (above.aps ≤ floor bytes 1)

module _ {j : Journal} where
  -- The record in force.
  abbrev pub record_of : Counter j → Option (ℕ × List ℕ)
  record_of c = Journal.recorded j c.store

  -- What `commit` records.
  abbrev pub image : Counter j → List ℕ
  image c = take (16 + get_or c.blob 5 0) c.blob

  -- An end of `commit` on `c`: the values are left alone, and the state is ready with the blob
  -- recorded, or failed.
  abbrev pub Committed : Counter j → Result × Counter j → Type 0
  Committed c p =
      (p.1.next ≡ c.next)
      × (p.1.until ≡ c.until)
      × (p.1.blob ≡ c.blob)
      × (((p.0 ≡ ok)
            × (p.1.state ≡ ready)
            × (p.1.generation ≢ 0)
            × (record_of p.1 ≡ some (p.1.generation, image c)))
          ⊎ ((p.0 ≢ ok) × (p.1.state ≡ failed) × (p.1.result ≢ ok)))

  pub commit_cases : (limit : ℕ) (c : Counter j) → Committed c (commit limit c)
  unfolding commit check_committed finish fail
  commit_cases limit c = ground (arith, Journal.replace_ok j (image c) limit c.store)

  -- If the blob's floors are not below the values either, no end of `commit` loses one.
  pub commit-Durable :
      (limit : ℕ) (c : Counter j) (above : Two)
      → (above.nwk ≤ floor c.blob 0) × (above.aps ≤ floor c.blob 1)
      → Durable (record_of c) above
      → Durable (record_of (commit limit c).1) above
  commit-Durable limit c above blob old = elim (Journal.replace_atomic j (image c) limit c.store) [
    | inl same ↦ rw (stored, same) old
    | inr (g, new) ↦
        rw (stored, new)
          (
            rw (floor-take (get_or c.blob 5 0) 0 c.blob (omega arith)) blob.0,
            rw (floor-take (get_or c.blob 5 0) 1 c.blob (omega arith)) blob.1,
          )
  ]
    where
      stored :
          record_of (commit limit c).1
          ≡ Journal.recorded j (Journal.replace j (image c) limit c.store).1
      stored = unfold commit check_committed finish fail in ground arith

  -- An end of `current` on `c`: values and record are left alone, and so is the state if the answer
  -- is ok, which it is before the first commit only without a record; else it is failed.
  abbrev pub Checked : Counter j → Result × Counter j → Type 0
  Checked c p =
      (p.1.next ≡ c.next)
      × (p.1.until ≡ c.until)
      × (p.1.blob ≡ c.blob)
      × (p.1.generation ≡ c.generation)
      × (record_of p.1 ≡ record_of c)
      × (((p.0 ≡ ok) × (p.1.state ≡ c.state) × ((c.generation ≡ 0) → record_of c ≡ none))
          ⊎ ((p.0 ≢ ok) × (p.1.state ≡ failed) × (p.1.result ≢ ok)))

  pub current_cases : (c : Counter j) → Checked c (current c)
  unfolding current check_loaded fail
  current_cases c = ground (arith, Journal.load-recorded j c.store, Journal.load_empty j c.store)
