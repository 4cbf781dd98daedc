-- ===== src/SecurityCounter/Freshness/Save.antt =====
-- `security_counter_save` and `security_counter_read` keep the state safe.
use cc2530_zigbee.Base.{
  ℕ, ◌≤◌, ◌≡◌, refl, ◌∙◌, sym, subst, inl, inr, ◌||◌, ◌&&◌, not, Option, none, some, List, length,
  get_or, arith, ltb, ◌!=◌, Bool-cases,
}
use cc2530_zigbee.NvRecord.{max_record}
use cc2530_zigbee.NvRecord.Journal.{Journal}
use cc2530_zigbee.SecurityCounter.Defs.{
  Result, ok, ready, Two, Counter, current, commit, ready_result, caller, payload,
}
use cc2530_zigbee.SecurityCounter.Operations.{
  Object, refused, save_unless, save_current, save_checked, save, read_checked, read, bytes_of,
  is_null, address_of,
}
use cc2530_zigbee.SecurityCounter.Bytes.{floor, floor-take, floor-payload, length-payload}
use cc2530_zigbee.SecurityCounter.Freshness.Commit.{
  Durable, record_of, Committed, Checked, commit_cases, commit-Durable, current_cases, image,
}
use cc2530_zigbee.SecurityCounter.Freshness.Invariant.{
  Covered, Live, Safe, failed-Safe, ready-Safe, Safe-Live, ready_result-ok, answered-Safe,
  Checked-Live, Checked-Durable,
}

module _ {j : Journal} where
  -- The counter as `commit` finds it in `security_counter_save`.
  abbrev saved : List ℕ → ℕ → Counter j → Counter j
  saved bytes count c = record c { blob = payload c.blob bytes count }

  saved_end :
      (bytes : List ℕ) (count : ℕ) (above : Two) (c : Counter j) (p : Result × Counter j)
      → length c.blob ≡ max_record
      → Live above c
      → Committed (saved bytes count c) p
      → Durable (record_of p.1) above
      → Safe above p.1
  saved_end bytes count above c (r, d) l live (n, u, b, inr (bad, e, worse)) durable =
      failed-Safe above d e worse (rw b (length-payload c.blob bytes count l)) durable
  saved_end bytes count above c (r, d) l live (n, u, b, inl (good, e, g, stored)) durable =
      ready-Safe above d e (rw b (length-payload c.blob bytes count l)) durable (record {
        nwk_order = rw (n, u) live.nwk_order;
        aps_order = rw (n, u) live.aps_order;
        blob_floors =
            rw (b, u)
              (
                kept 0 (omega arith) ∙ live.blob_floors.0,
                kept 1 (omega arith) ∙ live.blob_floors.1,
              );
        covered =
            subst (λ o. Covered o d.generation d.next d.until) (sym stored)
              (g, ground (arith, recorded 0), ground (arith, recorded 1));
      })
    where
      kept : (e : ℕ) → e ≤ 1 → floor (saved bytes count c).blob e ≡ floor c.blob e
      kept e h = floor-payload c.blob bytes count e l h

      recorded : (e : ℕ) → e ≤ 1 → floor (image (saved bytes count c)) e ≡ floor c.blob e
      recorded e h =
          floor-take (get_or (saved bytes count c).blob 5 0) e (saved bytes count c).blob h
          ∙ kept e h

  save_current-Safe :
      (bytes : List ℕ) (count limit : ℕ) (above : Two) (c : Counter j) (p : Result × Counter j)
      → Safe above c
      → c.state ≡ ready
      → Checked c p
      → Safe above (save_current bytes count limit p).1
  unfolding save_current
  save_current-Safe bytes count limit above c (ok, d) s e same =
      let live = Checked-Live above c (ok, d) same (Safe-Live above c e s) in
      let l : length d.blob ≡ max_record = rw same.2 s.blob_length in
      let durable = Checked-Durable above c (ok, d) same s.durable in
      saved_end bytes count above d (commit limit (saved bytes count d)) l live
        (commit_cases limit (saved bytes count d))
        (commit-Durable limit (saved bytes count d) above
          (ground (
            arith,
            floor-payload d.blob bytes count 0 l,
            floor-payload d.blob bytes count 1 l,
            live.nwk_order,
            live.aps_order,
            live.blob_floors,
          ))
          durable)
  save_current-Safe bytes count limit above c (r, d) s e same =
      failed-Safe above d (ground arith) (ground arith) (ground (arith, s.blob_length))
        (Checked-Durable above c (r, d) same s.durable)

  save_unless-Safe :
      (o : Option Result) (bytes : List ℕ) (count limit : ℕ) (above : Two) (c : Counter j)
      → Safe above c
      → c.state ≡ ready
      → Safe above (save_unless o bytes count limit c).1
  unfolding save_unless
  save_unless-Safe (some r) bytes count limit above c s e = s
  save_unless-Safe none bytes count limit above c s e =
      save_current-Safe bytes count limit above c (current c) s e (current_cases c)

  save_checked-Safe :
      (reserved_end : ℕ) (source : Option Object) (count limit : ℕ) (r : Result) (above : Two)
      (c : Counter j)
      → Safe above c
      → ready_result c ≡ r
      → Safe above (save_checked reserved_end source count limit r c).1
  unfolding save_checked
  save_checked-Safe reserved_end source count limit ok above c s e =
      save_unless-Safe (refused reserved_end source count limit) (bytes_of source) count limit above
        c s (ready_result-ok above c s e)
  save_checked-Safe reserved_end source count limit _ above c s e = s

  -- `security_counter_save` keeps the state safe.
  pub save-Safe :
      (reserved_end : ℕ) (source : Option Object) (count limit : ℕ) (above : Two) (c : Counter j)
      → Safe above c
      → Safe above (save reserved_end source count limit c).1
  unfolding save
  save-Safe reserved_end source count limit above c s =
      save_checked-Safe reserved_end source count limit (ready_result c) above c s refl

  read_checked-Safe :
      (reserved_end : ℕ) (target : Option Object) (capacity : ℕ) (length_out : Option Object)
      (r : Result) (above : Two) (c : Counter j)
      → Safe above c
      → ready_result c ≡ r
      → Safe above (read_checked reserved_end target capacity length_out r c).2
  unfolding read_checked
  read_checked-Safe reserved_end target capacity length_out ok above c s e =
      elim (Bool-cases (is_null length_out || (is_null target && capacity != 0))) [
        | inl bad ↦ rw bad s
        | inr fine ↦
            rw fine
              (elim (Bool-cases (
                not (caller reserved_end (address_of length_out) 1)
                || (capacity != 0 && not (caller reserved_end (address_of target) capacity)))) [
                  | inl foreign ↦ rw foreign s
                  | inr own ↦ rw own (elim (Bool-cases (ltb capacity c.payload_length)) [
                    | inl small ↦ rw small s
                    | inr large ↦
                        rw large (answered-Safe above c ok s (ready_result-ok above c s e))
                  ])
                ])
      ]
  read_checked-Safe reserved_end target capacity length_out _ above c s e = s

  -- `security_counter_read` keeps the state safe.
  pub read-Safe :
      (reserved_end : ℕ) (target : Option Object) (capacity : ℕ) (length_out : Option Object)
      (above : Two) (c : Counter j)
      → Safe above c
      → Safe above (read reserved_end target capacity length_out c).2
  unfolding read
  read-Safe reserved_end target capacity length_out above c s =
      read_checked-Safe reserved_end target capacity length_out (ready_result c) above c s refl
