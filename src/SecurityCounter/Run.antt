-- ===== src/SecurityCounter/Run.antt =====
-- Runs of the counters: any calls in any order, with resets between them.
use cc2530_zigbee.Base.{
  ℕ, ◌+◌, ◌≤◌, ◌<◌, ◌≡◌, refl, subst, Bool, true, ◌==◌, Bool-cases, inl, inr, Option, none, some,
  List, [], ◌∷◌, u32, arith,
}
use cc2530_zigbee.NvRecord.Journal.{Journal}
use cc2530_zigbee.SecurityCounter.Defs.{Two, at, put, top, Counter}
use cc2530_zigbee.SecurityCounter.Operations.{
  Object, boot, start, create, restage, take_value, save, read,
}
use cc2530_zigbee.SecurityCounter.Freshness.Commit.{Durable}
use cc2530_zigbee.SecurityCounter.Freshness.Invariant.{Safe}
use cc2530_zigbee.SecurityCounter.Freshness.Take.{Taken, take_value-Taken}
use cc2530_zigbee.SecurityCounter.Freshness.Open.{reset-Safe, start-Safe}
use cc2530_zigbee.SecurityCounter.Freshness.Write.{create-Safe, restage-Safe}
use cc2530_zigbee.SecurityCounter.Freshness.Save.{save-Safe, read-Safe}

-- The calls of the API with their arguments, and a loss of power.
pub data Call : Type 0 where
  open_record reset : Call
  create_record : ℕ → ℕ → Option Object → ℕ → ℕ → Call
  restage_record : Option Object → ℕ → Call
  take_next : ℕ → Option ℕ → ℕ → Call
  save_record : Option Object → ℕ → ℕ → Call
  read_record : Option Object → ℕ → Option Object → Call

module _ (reserved_end : ℕ) {j : Journal} where
  -- The value that a call hands out, and the state after it. The floors of a create are uint32_t.
  unfoldable pub call : Call → Counter j → Option ℕ × Counter j
  call open_record c = (none, (start c).1)
  call reset c = (none, boot j (Journal.reset j c.store))
  call (create_record nwk aps source count limit) c =
      (none, (create reserved_end (u32 nwk) (u32 aps) source count limit c).1)
  call (restage_record source count) c = (none, (restage reserved_end source count c).1)
  call (take_next domain value limit) c =
      let (_, v, d) = take_value reserved_end domain value limit c in (v, d)
  call (save_record source count limit) c = (none, (save reserved_end source count limit c).1)
  call (read_record target capacity count) c = (none, (read reserved_end target capacity count c).2)

-- The domain that a call draws from.
abbrev domain_of : Call → ℕ
domain_of (take_next domain value limit) = domain
domain_of _ = 2

-- The value put before the later ones, if it was handed out in the domain.
abbrev record_value : Bool → Option ℕ → List ℕ → List ℕ
record_value true (some v) later = v ∷ later
record_value _ _ later = later

module _ (reserved_end : ℕ) {j : Journal} where
  -- The values that a run hands out in a domain, in their order.
  unfoldable pub handed_out : ℕ → List Call → Counter j → List ℕ
  handed_out domain [] c = []
  handed_out domain (x ∷ xs) c =
      record_value (domain_of x == domain) (call reserved_end x c).0
        (handed_out domain xs (call reserved_end x c).1)

-- The values rise strictly, from `least` on and below the maximum of uint32_t.
unfoldable pub RisesFrom : ℕ → List ℕ → Type 0
RisesFrom least [] = Unit {0}
RisesFrom least (v ∷ vs) = (least ≤ v) × (v < top) × RisesFrom (v + 1) vs

RisesFrom-weaken :
    (least lower : ℕ) (vs : List ℕ) → lower ≤ least → RisesFrom least vs → RisesFrom lower vs
unfolding RisesFrom
RisesFrom-weaken least lower [] le h = h
RisesFrom-weaken least lower (v ∷ vs) le h = (omega arith, h.1, h.2)

module _ (reserved_end : ℕ) {j : Journal} where
  -- A call that hands out nothing to the domain does not lower what bounds it.
  call-Safe :
      (x : Call) (above : Two) (c : Counter j)
      → Safe above c
      → (call reserved_end x c).0 ≡ none
      → Safe above (call reserved_end x c).1
  unfolding call
  call-Safe open_record above c s e = start-Safe above c s
  call-Safe reset above c s e = reset-Safe above c s
  call-Safe (create_record nwk aps source count limit) above c s e =
      create-Safe reserved_end (u32 nwk) (u32 aps) source count limit above c (omega arith)
        (omega arith) s
  call-Safe (restage_record source count) above c s e =
      restage-Safe reserved_end source count above c s
  call-Safe (take_next domain value limit) above c s e =
      subst (λ v. Taken domain above v (take_value reserved_end domain value limit c).2) e
        (take_value-Taken reserved_end domain value limit above c s)
  call-Safe (save_record source count limit) above c s e =
      save-Safe reserved_end source count limit above c s
  call-Safe (read_record target capacity count) above c s e =
      read-Safe reserved_end target capacity count above c s

  -- A value comes from a take, and is fresh.
  call-Taken :
      (x : Call) (above : Two) (c : Counter j) (v : ℕ)
      → Safe above c
      → (call reserved_end x c).0 ≡ some v
      → Taken (domain_of x) above (some v) (call reserved_end x c).1
  unfolding call
  call-Taken (take_next domain value limit) above c v s e =
      subst (λ w. Taken domain above w (take_value reserved_end domain value limit c).2) e
        (take_value-Taken reserved_end domain value limit above c s)
  call-Taken _ above c v s e = cc

  -- A call and the run after it, if the run's values rise from where the call leaves them.
  call-RisesFrom :
      (domain : ℕ) (x : Call) (above : Two) (c : Counter j) (v : Option ℕ) (vs : List ℕ)
      → domain ≤ 1
      → Safe above c
      → (call reserved_end x c).0 ≡ v
      → ((next : Two) → Safe next (call reserved_end x c).1 → RisesFrom (at next domain) vs)
      → RisesFrom (at above domain) (record_value (domain_of x == domain) v vs)
  unfolding RisesFrom
  call-RisesFrom domain x above c none vs le s e later = elim (Bool-cases (domain_of x == domain)) [
    | inl same ↦ rw same (later above (call-Safe x above c s e))
    | inr other ↦ rw other (later above (call-Safe x above c s e))
  ]
  call-RisesFrom domain x above c (some v) vs le s e later =
      let fresh = call-Taken x above c v s e in
      let next = put above (domain_of x) (v + 1) in
      let rest = later next fresh.2 in
      elim (Bool-cases (domain_of x == domain)) [
        | inl same ↦ rw same (
          ground (arith, fresh.0),
          fresh.1,
          RisesFrom-weaken (at next domain) (v + 1) vs (ground arith) rest,
        )
        | inr other ↦
            rw other (
              RisesFrom-weaken (at next domain) (at above domain) vs (ground (arith, fresh.0)) rest)
      ]

  run-RisesFrom :
      (domain : ℕ) (xs : List Call) (above : Two) (c : Counter j)
      → domain ≤ 1
      → Safe above c
      → RisesFrom (at above domain) (handed_out reserved_end domain xs c)
  unfolding handed_out RisesFrom
  run-RisesFrom domain [] above c le s = tt
  run-RisesFrom domain (x ∷ xs) above c le s =
      call-RisesFrom domain x above c (call reserved_end x c).0
        (handed_out reserved_end domain xs (call reserved_end x c).1) le s refl
        (λ next safe. run-RisesFrom domain xs next (call reserved_end x c).1 le safe)

-- In every run from a reset, with any calls in any order, resets between them and any failures
-- of the journal, the values that `security_counter_take` hands out in a domain rise strictly
-- and stay below the maximum of uint32_t: none is handed out twice.
pub handed_out-RisesFrom :
    (reserved_end domain : ℕ) (xs : List Call) (j : Journal) (s : Journal.Store j)
    → domain ≤ 1
    → RisesFrom 0 (handed_out reserved_end domain xs (boot j s))
unfolding boot
handed_out-RisesFrom reserved_end domain xs j s le =
    RisesFrom-weaken (at zeros domain) 0 (handed_out reserved_end domain xs (boot j s))
      (omega arith)
      (run-RisesFrom reserved_end domain xs zeros (boot j s) le
        (record { blob_length = refl; durable = initial (Journal.recorded j s); phase = refl }))
  where
    zeros : Two
    zeros = record { nwk = 0; aps = 0 }

    initial : (o : Option (ℕ × List ℕ)) → Durable o zeros
    initial none = (refl, refl)
    initial (some (g, bytes)) = (omega arith, omega arith)
