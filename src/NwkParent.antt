-- ===== src/NwkParent.antt =====
-- src/nwk_parent.c, and of src/nwk_candidates.c the table that it chooses from: the header of the
-- table and the reads of its entries.
pub mod Best
pub mod Eligibility
pub mod Collected
pub mod Newest
pub mod Choice
pub mod Consider
pub mod Identity
pub mod Tables
pub mod Entering
mod Tests
use cc2530_zigbee.Base.{
  ℕ, zero, suc, ◌+◌, ◌-◌, ◌*◌, ◌/◌, ◌%◌, ◌^◌, Bool, true, false, ◌&&◌, ◌||◌, not, ltb, leb, ◌==◌,
  ◌!=◌, if◌then◌else◌, Option, none, some, List, [], ◌∷◌, length, get_or, u8, sub8, bit_and,
}
use cc2530_zigbee.NwkBeacon.{Beacon, any_of, all_of}

-- `nwk_candidate_t`
pub record Candidate : Type 0 where
  pub channel : ℕ
  pub pan_id : ℕ
  pub address_mode : ℕ
  pub coordinator : List ℕ
  pub superframe : ℕ
  pub sequence : ℕ
  pub mac_flags : ℕ
  pub gts_permit : ℕ
  pub short_pending : ℕ
  pub extended_pending : ℕ
  pub network : Beacon

-- `nwk_candidates_t`, with its first `count` entries
pub record Candidates : Type 0 where
  pub version : ℕ
  pub channel_mask : ℕ
  pub entries : List Candidate
  pub filtered : ℕ
  pub parent : ℕ

-- `NWK_CANDIDATES_CAPACITY`
abbrev pub capacity : ℕ
capacity = 4

-- `valid_mask(mask)`
unfoldable pub valid_mask : ℕ → Bool
valid_mask mask = mask != 0 && bit_and mask (0xffffffff - 0x07fff800) == 0

-- `valid_table(table)`
unfoldable pub valid_table : Candidates → Bool
valid_table t =
    t.version == 1
    && leb t.filtered 1
    && leb (length t.entries) capacity
    && valid_mask t.channel_mask

-- `nwk_candidates_result_t`
pub data TableResult : Type 0 where
  table_ok added updated withdrawn not_eligible full bad_crc table_invalid_argument : TableResult
  table_invalid outside_mask mac_rejected not_beacon nwk_rejected bad_index : TableResult

-- `nwk_candidates_init(table, channel_mask)`, the table of zeros with the mask and the version.
unfoldable pub init : ℕ → TableResult × Option Candidates
init mask = if not (valid_mask mask) then (table_invalid_argument, none) else (
  table_ok,
  some (record { version = 1; channel_mask = mask; entries = []; filtered = 0; parent = 0 }),
)

-- `nwk_candidates_parent(table, parent)`
unfoldable pub filter_parent : ℕ → Candidates → TableResult × Candidates
filter_parent parent' t =
    if not (valid_table t) || length t.entries != 0
    then (table_invalid, t)
    else (table_ok, record t { parent = parent'; filtered = 1 })

unfoldable pub entry : List Candidate → ℕ → Option Candidate
entry [] i = none
entry (x ∷ xs) zero = some x
entry (x ∷ xs) (suc i) = entry xs i

-- `nwk_candidates_get(table, index, result)`
unfoldable pub get : Candidates → ℕ → TableResult × Option Candidate
get t i = if not (valid_table t) then (table_invalid, none) else found (entry t.entries i)
  where
    found : Option Candidate → TableResult × Option Candidate
    found none = (bad_index, none)
    found (some x) = (table_ok, some x)

-- `nwk_parent_result_t`
pub data Result : Type 0 where
  ok no_parent ambiguous_update invalid_argument invalid_table : Result

-- `nwk_parent_policy_t`
pub record Policy : Type 0 where
  pub extended_pan_id : List ℕ
  pub potential_mask : ℕ
  pub link_cost : ℕ → ℕ
  pub minimum_known : ℕ
  pub minimum_update_id : ℕ

unfoldable pub same_bytes : List ℕ → List ℕ → Bool
same_bytes [] [] = true
same_bytes (x ∷ xs) (y ∷ ys) = x == y && same_bytes xs ys
same_bytes _ _ = false

-- `potential_mask & (1 << i)`
unfoldable pub permits : ℕ → ℕ → Bool
permits mask i = mask / 2 ^ i % 2 == 1

-- The loop over `link_cost`, from index `i` on.
unfoldable pub costs_valid : Policy → ℕ → List Candidate → Bool
costs_valid policy i [] = true
costs_valid policy i (x ∷ xs) =
    not (ltb (policy.link_cost i) 1 || ltb 7 (policy.link_cost i)) && costs_valid policy (suc i) xs

-- The `delta` of an update id to the minimum.
unfoldable pub delta_of : Policy → Candidate → ℕ
delta_of policy x = sub8 x.network.update_id policy.minimum_update_id

-- An entry that passed the loop of eligibility: its index, its update id and its cost.
pub record Eligible : Type 0 where
  pub index : ℕ
  pub update : ℕ
  pub cost : ℕ

unfoldable pub add : Eligible → Option (List Eligible) → Option (List Eligible)
add e none = none
add e (some es) = some (e ∷ es)

-- The loop of eligibility from index `i` on: the eligible entries in order, or none for an update
-- id whose distance to the minimum is ambiguous.
unfoldable pub eligible_from : Policy → ℕ → List Candidate → Option (List Eligible)
eligible_from policy i [] = some []
eligible_from policy i (x ∷ xs) =
    let rest = eligible_from policy (suc i) xs in
    if not (permits policy.potential_mask i) || ltb 3 (policy.link_cost i)
    then rest
    else if not (same_bytes x.network.extended_pan_id policy.extended_pan_id)
    then rest
    else if policy.minimum_known != 0 && delta_of policy x == 128
    then none
    else if policy.minimum_known != 0 && ltb 128 (delta_of policy x)
    then rest
    else add (record { index = i; update = x.network.update_id; cost = policy.link_cost i }) rest

-- `dominates` of an entry: its update id is not older than any other.
unfoldable pub dominates : ℕ → List Eligible → Bool
dominates update [] = true
dominates update (e ∷ es) = not (leb 128 (sub8 update e.update)) && dominates update es

unfoldable pub improves : Option Eligible → Eligible → Bool
improves none e = true
improves (some b) e = ltb e.cost b.cost

-- The loop that finds the best of the entries `es` among all of `rivals`.
unfoldable pub best_from : List Eligible → Option Eligible → List Eligible → Option Eligible
best_from rivals best [] = best
best_from rivals best (e ∷ es) =
    best_from rivals (if dominates e.update rivals && improves best e then some e else best) es

-- The copy of the candidate that was fetched at index `i`.
unfoldable pub copy : ℕ → TableResult × Option Candidate → Result × Option (ℕ × Candidate)
copy i (table_ok, some x) = (ok, some (i, x))
copy i (table_ok, none) = (invalid_table, none)
copy i (status, o) = (invalid_table, none)

-- The end of `nwk_parent_select`, from the test of `best` on.
unfoldable pub choose_best : Candidates → Option Eligible → Result × Option (ℕ × Candidate)
choose_best t none = (ambiguous_update, none)
choose_best t (some b) = copy b.index (get t b.index)

-- From the test of `eligible` on.
unfoldable pub choose : Candidates → Option (List Eligible) → Result × Option (ℕ × Candidate)
choose t none = (ambiguous_update, none)
choose t (some []) = (no_parent, none)
choose t (some (e ∷ es)) = choose_best t (best_from (e ∷ es) none (e ∷ es))

abbrev pub is_readable : TableResult → Bool
is_readable table_ok = true
is_readable bad_index = true
is_readable _ = false

-- `nwk_parent_select(table, policy, output)` on three objects
unfoldable pub select : Candidates → Policy → Result × Option (ℕ × Candidate)
select t policy =
    if ltb 1 policy.minimum_known
    then (invalid_argument, none)
    else if any_of 0 policy.extended_pan_id == 0 || all_of 255 policy.extended_pan_id == 255
    then (invalid_argument, none)
    else if not (is_readable (get t 0).0)
    then (invalid_table, none)
    else if bit_and policy.potential_mask (255 - (2 ^ length t.entries - 1)) != 0
    then (invalid_argument, none)
    else if not (costs_valid policy 0 t.entries)
    then (invalid_argument, none)
    else choose t (eligible_from policy 0 t.entries)
