-- ===== src/SecurityCounter/Freshness/Open.antt =====
-- A reset and `security_counter_open` keep the state safe.
use cc2530_zigbee.Base.{
  ℕ, ◌+◌, ◌*◌, ◌≤◌, ◌<◌, ◌^◌, ◌≡◌, ◌≢◌, refl, ◌∙◌, sym, subst, inl, inr, true, some, List, length,
  arith, Bool-cases, decode32-lt,
}
use cc2530_zigbee.NvRecord
use cc2530_zigbee.NvRecord.{max_record}
use cc2530_zigbee.NvRecord.Journal.{Journal}
use cc2530_zigbee.SecurityCounter.Defs.{
  Result, ok, State, cold, failed, Two, Counter, finish, fail, floors, is_state, loaded,
}
use cc2530_zigbee.SecurityCounter.Operations.{boot, check_format, adopt, opened, start}
use cc2530_zigbee.SecurityCounter.Bytes.{floor, length-loaded, floor-loaded}
use cc2530_zigbee.SecurityCounter.Freshness.Commit.{Durable, record_of}
use cc2530_zigbee.SecurityCounter.Freshness.Invariant.{
  Covered, Live, Phase, Safe, failed-Safe, ready-Safe,
}

module _ {j : Journal} where
  -- After a reset only the record counts.
  pub reset-Safe :
      (above : Two) (c : Counter j) → Safe above c → Safe above (boot j (Journal.reset j c.store))
  unfolding boot
  reset-Safe above c s = record {
    blob_length = refl;
    durable = subst (λ r. Durable r above) (sym (Journal.reset-recorded j c.store)) s.durable;
    phase = refl;
  }

  -- The state with the loaded record, as `security_counter_open` judges it.
  abbrev after_load : Counter j → Counter j
  after_load c = record c {
    nv_result = (Journal.load j c.store).0;
    blob = loaded (Journal.load j c.store).1 c.blob;
    store = (Journal.load j c.store).2;
  }

  check_format_ok : (c : Counter j) → check_format c ≡ ok → 16 ≤ Journal.record_length j c.store
  unfolding check_format
  check_format_ok c e = ground arith

  -- The loaded floors, by the record itself.
  adopted-Live :
      (above : Two) (c : Counter j)
      → Safe above c
      → (Journal.load j c.store).0 ≡ NvRecord.Result.ok
      → check_format (after_load c) ≡ ok
      → Durable (record_of (after_load c)) above × Live above (adopt ok (after_load c)).1
  unfolding adopt finish floors
  adopted-Live above c s e f = (
    kept,
    record {
      nwk_order = ground (arith, durable, floors_are 0, small 0);
      aps_order = ground (arith, durable, floors_are 1, small 1);
      blob_floors = (refl, refl);
      covered =
          subst (λ r. Covered r (Journal.generation j (after_load c).store) floors' floors')
            (sym now) (law.2, ground (arith, floors_are 0), ground (arith, floors_are 1));
    },
  )
    where
      bytes : List ℕ
      bytes = (Journal.load j c.store).1

      law :
          (Journal.recorded j c.store
            ≡ some (Journal.generation j (Journal.load j c.store).2, bytes))
          × (Journal.record_length j (Journal.load j c.store).2 ≡ length bytes)
          × (Journal.generation j (Journal.load j c.store).2 ≢ 0)
      law = Journal.load_ok j c.store e

      floors_are : (d : ℕ) → d ≤ 1 → floor (after_load c).blob d ≡ floor bytes d
      floors_are d le =
          floor-loaded bytes c.blob d (ground (arith, check_format_ok (after_load c) f, law)) le

      floors' : Two
      floors' = record { nwk = floor (after_load c).blob 0; aps = floor (after_load c).blob 1 }

      small : (d : ℕ) → floor bytes d < 2 ^ 32
      small d = decode32-lt bytes (8 + 4 * d)

      now : record_of (after_load c) ≡ some (Journal.generation j (after_load c).store, bytes)
      now = Journal.load-recorded j c.store ∙ law.0

      durable : (above.nwk ≤ floor bytes 0) × (above.aps ≤ floor bytes 1)
      durable = rw law.0 at s.durable

      kept : Durable (record_of (after_load c)) above
      kept = rw now durable

  loaded_blob :
      (above : Two) (c : Counter j) → Safe above c → length (after_load c).blob ≡ max_record
  loaded_blob above c s =
      length-loaded (Journal.load j c.store).1 c.blob (Journal.load_fits j c.store) s.blob_length

  loaded-Durable :
      (above : Two) (c : Counter j) → Safe above c → Durable (record_of (after_load c)) above
  loaded-Durable above c s =
      subst (λ r. Durable r above) (sym (Journal.load-recorded j c.store)) s.durable

  adopt-Safe :
      (above : Two) (c : Counter j) (r : Result)
      → Safe above c
      → (Journal.load j c.store).0 ≡ NvRecord.Result.ok
      → check_format (after_load c) ≡ r
      → Safe above (adopt r (after_load c)).1
  unfolding adopt finish fail floors
  adopt-Safe above c ok s e f =
      let (durable, live) = adopted-Live above c s e f in
      ready-Safe above (adopt ok (after_load c)).1 refl (loaded_blob above c s) durable live
  adopt-Safe above c r s e f =
      failed-Safe above (adopt r (after_load c)).1 refl (λ g. cc) (loaded_blob above c s)
        (loaded-Durable above c s)

  opened-Safe :
      (above : Two) (c : Counter j) (r : NvRecord.Result)
      → Safe above c
      → c.generation ≡ 0
      → (Journal.load j c.store).0 ≡ r
      → Safe above (opened (record (after_load c) { nv_result = r })).1
  unfolding opened finish fail
  opened-Safe above c NvRecord.Result.empty s g e = record {
    blob_length = loaded_blob above c s;
    durable = loaded-Durable above c s;
    phase = (Journal.load-recorded j c.store ∙ Journal.load_empty j c.store e, g);
  }
  opened-Safe above c NvRecord.Result.ok s g e =
      rw e at (adopt-Safe above c (check_format (after_load c)) s e refl)
  opened-Safe above c r s g e =
      failed-Safe above (opened (record (after_load c) { nv_result = r })).1 refl (λ x. cc)
        (loaded_blob above c s) (loaded-Durable above c s)

  cold_generation :
      (above : Two) (c : Counter j) (s : State)
      → Phase above c s
      → is_state s cold ≡ true
      → c.generation ≡ 0
  cold_generation above c cold p e = p
  cold_generation above c _ p e = cc

  -- `security_counter_open` keeps the state safe.
  pub start-Safe : (above : Two) (c : Counter j) → Safe above c → Safe above (start c).1
  unfolding start
  start-Safe above c s = elim (Bool-cases (is_state c.state failed)) [
    | inl bad ↦ rw bad s
    | inr fine ↦ rw fine (elim (Bool-cases (is_state c.state cold)) [
      | inl is_cold ↦
          rw is_cold (opened-Safe above c (Journal.load j c.store).0 s (fresh is_cold) refl)
      | inr warm ↦ rw warm s
    ])
  ]
    where
      fresh : is_state c.state cold ≡ true → c.generation ≡ 0
      fresh is_cold = cold_generation above c c.state s.phase is_cold
