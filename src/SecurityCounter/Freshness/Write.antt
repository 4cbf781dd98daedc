-- ===== src/SecurityCounter/Freshness/Write.antt =====
-- `security_counter_create` and `security_counter_restage` keep the state safe.
use cc2530_zigbee.Base.{
  ℕ, ◌<◌, ◌^◌, ◌≡◌, ◌≢◌, refl, ◌∙◌, ap, sym, subst, inl, inr, false, ◌||◌, ◌&&◌, not, Option, none,
  some, List, length, get_or, arith, encode32, ◌!=◌, Bool-cases, length-encode32, length-drop, drop,
  ◌∷◌,
}
use cc2530_zigbee.NvRecord.{max_record}
use cc2530_zigbee.NvRecord.Journal.{Journal}
use cc2530_zigbee.SecurityCounter.Defs.{
  Result, ok, State, unprovisioned, ready, failed, Two, Counter, finish, floors, is_state, payload,
}
use cc2530_zigbee.SecurityCounter.Operations.{
  Object, refused, stage, stage_unless, write_header, create, restage, bytes_of,
}
use cc2530_zigbee.SecurityCounter.Bytes.{
  floor, floor-encode32, floor-encode32_ne, floor-payload, length-payload,
}
use cc2530_zigbee.SecurityCounter.Freshness.Commit.{Durable, record_of}
use cc2530_zigbee.SecurityCounter.Freshness.Invariant.{Covered, Phase, Safe, ready-Safe, Safe-Live}

refused_lem :
    (reserved_end : ℕ) (source : Option Object) (length limit : ℕ)
    → refused reserved_end source length limit ≢ some ok
unfolding refused
refused_lem reserved_end source length limit = ground arith

module _ {j : Journal} where
  -- The counter with a payload staged in its blob, as `stage` leaves it.
  abbrev with_payload : List ℕ → ℕ → Counter j → Counter j
  with_payload bytes length c = record c {
    blob = payload c.blob bytes length;
    payload_length = length;
    state = ready;
    result = ok;
  }

  staged-Safe :
      (above : Two) (c : Counter j) (bytes : List ℕ) (length : ℕ)
      → Safe above c
      → c.state ≡ ready
      → Safe above (with_payload bytes length c)
  staged-Safe above c bytes length s e =
      let live = Safe-Live above c e s in
      ready-Safe above (with_payload bytes length c) refl
        (length-payload c.blob bytes length s.blob_length) s.durable
        (record {
          nwk_order = live.nwk_order;
          aps_order = live.aps_order;
          blob_floors = (
            floor-payload c.blob bytes length 0 s.blob_length (omega arith) ∙ live.blob_floors.0,
            floor-payload c.blob bytes length 1 s.blob_length (omega arith) ∙ live.blob_floors.1,
          );
          covered = live.covered;
        })

  stage_unless-Safe :
      (above : Two) (c : Counter j) (o : Option Result) (bytes : List ℕ) (length : ℕ)
      → Safe above c
      → c.state ≡ ready
      → Safe above (stage_unless o bytes length c).1
  unfolding stage_unless finish
  stage_unless-Safe above c none bytes length s e = staged-Safe above c bytes length s e
  stage_unless-Safe above c (some r) bytes length s e = s

  -- `security_counter_restage` keeps the state safe.
  pub restage-Safe :
      (reserved_end : ℕ) (source : Option Object) (length : ℕ) (above : Two) (c : Counter j)
      → Safe above c
      → Safe above (restage reserved_end source length c).1
  unfolding restage stage
  restage-Safe reserved_end source length above c s =
      elim (Bool-cases (not (is_state c.state ready) || c.generation != 0)) [
        | inl bad ↦ rw bad s
        | inr fine ↦ rw fine (
            stage_unless-Safe above c (refused reserved_end source length 1) (bytes_of source)
              length s (ready_of c.state fine))
      ]
    where
      ready_of : (t : State) → (not (is_state t ready) || c.generation != 0) ≡ false → t ≡ ready
      ready_of ready e = refl
      ready_of _ e = ground arith

  created-Safe :
      (nwk_floor aps_floor : ℕ) (above : Two) (c : Counter j)
      → nwk_floor < 2 ^ 32
      → aps_floor < 2 ^ 32
      → length c.blob ≡ max_record
      → record_of c ≡ none
      → c.generation ≡ 0
      → c.state ≡ ready
      → Durable none above
      → Safe above (write_header nwk_floor aps_floor (ok, c)).1
  unfolding write_header floors
  created-Safe nwk_floor aps_floor above c hn ha l r g e d =
      ready-Safe above (write_header nwk_floor aps_floor (ok, c)).1 e
        (length-encode32 (encode32 header 8 nwk_floor) 12 aps_floor
          ∙ length-encode32 header 8 nwk_floor
          ∙ size)
        (subst (λ o. Durable o above) (sym r) d)
        (record {
          nwk_order = ground (arith, nwk_is);
          aps_order = ground (arith, aps_is);
          blob_floors = (refl, refl);
          covered = rw r (g, refl, refl);
        })
    where
      header : List ℕ
      header = 0x43 ∷ 0x54 ∷ 0x52 ∷ 0x31 ∷ 1 ∷ get_or c.blob 5 0 ∷ 0 ∷ 0 ∷ drop 8 c.blob

      size : length header ≡ max_record
      size = omega (arith, length-drop 8 c.blob)

      nwk_is : floor (encode32 (encode32 header 8 nwk_floor) 12 aps_floor) 0 ≡ nwk_floor
      nwk_is =
          floor-encode32_ne (encode32 header 8 nwk_floor) 1 0 aps_floor (inr (omega arith))
          ∙ floor-encode32 header 0 nwk_floor size (omega arith) hn

      aps_is : floor (encode32 (encode32 header 8 nwk_floor) 12 aps_floor) 1 ≡ aps_floor
      aps_is =
          floor-encode32 (encode32 header 8 nwk_floor) 1 aps_floor
            (length-encode32 header 8 nwk_floor ∙ size) (omega arith) ha

  -- The header is written only if the staging answered ok.
  left_alone :
      (nwk_floor aps_floor : ℕ) (r : Result) (c : Counter j)
      → r ≢ ok
      → write_header nwk_floor aps_floor (r, c) ≡ (r, c)
  unfolding write_header
  left_alone nwk_floor aps_floor ok c ne = absurd (ne refl)
  left_alone nwk_floor aps_floor _ c ne = refl

  -- A create is allowed without a record only.
  none_of :
      (above : Two) (c : Counter j) (t : State)
      → Phase above c t
      → (not (is_state t unprovisioned) && (not (is_state t ready) || c.generation != 0)) ≡ false
      → (record_of c ≡ none) × (c.generation ≡ 0)
  none_of above c ready p e = uncovered (record_of c) p.covered (ground arith)
    where
      uncovered :
          (o : Option (ℕ × List ℕ))
          → Covered o c.generation c.next c.until
          → c.generation ≡ 0
          → (o ≡ none) × (c.generation ≡ 0)
      uncovered none v g = (refl, g)
      uncovered (some (g', bytes)) v g = absurd (v.0 g)
  none_of above c unprovisioned p e = p
  none_of above c _ p e = ground arith

  staged_create-Safe :
      (nwk_floor aps_floor : ℕ) (above : Two) (c : Counter j) (o : Option Result) (bytes : List ℕ)
      (length : ℕ)
      → nwk_floor < 2 ^ 32
      → aps_floor < 2 ^ 32
      → Safe above c
      → (record_of c ≡ none) × (c.generation ≡ 0)
      → o ≢ some ok
      → Safe above (write_header nwk_floor aps_floor (stage_unless o bytes length c)).1
  unfolding stage_unless finish
  staged_create-Safe nwk_floor aps_floor above c none bytes length hn ha s e ne =
      created-Safe nwk_floor aps_floor above (with_payload bytes length c) hn ha
        (length-payload c.blob bytes length s.blob_length) e.0 e.1 refl
        (subst (λ r. Durable r above) e.0 s.durable)
  staged_create-Safe nwk_floor aps_floor above c (some r) bytes length hn ha s e ne =
      rw (left_alone nwk_floor aps_floor r c (λ h. ne (ap some h))) s

  -- `security_counter_create` keeps the state safe.
  pub create-Safe :
      (reserved_end nwk_floor aps_floor : ℕ) (source : Option Object) (length limit : ℕ)
      (above : Two) (c : Counter j)
      → nwk_floor < 2 ^ 32
      → aps_floor < 2 ^ 32
      → Safe above c
      → Safe above (create reserved_end nwk_floor aps_floor source length limit c).1
  unfolding create stage
  create-Safe reserved_end nwk_floor aps_floor source length limit above c hn ha s =
      elim (Bool-cases (is_state c.state failed)) [
        | inl bad ↦ rw bad s
        | inr fine ↦
            rw fine
              (elim (Bool-cases (
                not (is_state c.state unprovisioned)
                && (not (is_state c.state ready) || c.generation != 0))) [
                  | inl refusal ↦ rw refusal s
                  | inr allowed ↦ rw allowed (
                      staged_create-Safe nwk_floor aps_floor above c
                        (refused reserved_end source length limit) (bytes_of source) length hn ha s
                        (none_of above c c.state s.phase allowed)
                        (refused_lem reserved_end source length limit))
                ])
      ]
