-- ===== src/NwkParent/Tests.antt =====
-- Runs and witnesses of the parent choice.
use cc2530_zigbee.Base.{
  arith, bytes, or_le16, if◌then◌else◌, ℕ, zero, suc, ◌≡◌, refl, none, some, List, [], ◌∷◌,
}
use cc2530_zigbee.NwkBeacon.{Beacon, any_of, all_of}
use cc2530_zigbee.NwkParent.{
  Candidate, Candidates, table_ok, valid_mask, valid_table, entry, get, init, Policy, same_bytes,
  permits, costs_valid, delta_of, add, eligible_from, dominates, improves, best_from, copy,
  choose_best, choose, select, ok, ambiguous_update,
}
use cc2530_zigbee.NwkParent.Choice.{select-IsParent, select-IsAmbiguous}
use cc2530_zigbee.NwkParent.Newest.{IsParent, IsAmbiguous}
use cc2530_zigbee.MacFrame.{header_shape, address_policy}
use cc2530_zigbee.MacFrame.Codec
use cc2530_zigbee.MacFrame.BeaconFields.{decode_beacon, beacon_fields, beacon_lists, any_broadcast}
use cc2530_zigbee.NwkBeacon
use cc2530_zigbee.NwkParent.Consider.{
  consider, hear, hear_frame, hear_beacon, hear_network, heard, candidate_of, same_identity,
  is_eligible,
}
use cc2530_zigbee.NwkParent.Identity.{find}
use cc2530_zigbee.NwkParent.Entering.{IsWellFormed, consider-IsWellFormed, find-consider, is_full}

abbrev pan : List ℕ
pan = 1 ∷ 2 ∷ 3 ∷ 4 ∷ 5 ∷ 6 ∷ 7 ∷ 8 ∷ []

abbrev beacon : ℕ → Beacon
beacon update = record {
  stack_profile = 2;
  router_capacity = 1;
  device_depth = 0;
  end_device_capacity = 1;
  extended_pan_id = pan;
  tx_offset = 0;
  update_id = update;
}

abbrev neighbour : ℕ → ℕ → Candidate
neighbour channel update = record {
  channel = channel;
  pan_id = 0x1a62;
  address_mode = 2;
  coordinator = 0 ∷ 0 ∷ 0 ∷ 0 ∷ 0 ∷ 0 ∷ 0 ∷ 0 ∷ [];
  superframe = 0xcfff;
  sequence = 7;
  mac_flags = 0;
  gts_permit = 0;
  short_pending = 0;
  extended_pending = 0;
  network = beacon update;
}

-- Update ids around the wrap: 255 is older than 1.
abbrev table : Candidates
table = record {
  version = 1;
  channel_mask = 0x07fff800;
  entries = neighbour 11 255 ∷ neighbour 15 1 ∷ neighbour 20 1 ∷ [];
  filtered = 0;
  parent = 0;
}

abbrev cost : ℕ → ℕ
cost zero = 1
cost (suc zero) = 3
cost (suc (suc i)) = 2

abbrev policy : Policy
policy = record {
  extended_pan_id = pan;
  potential_mask = 7;
  link_cost = cost;
  minimum_known = 0;
  minimum_update_id = 0;
}

-- The older one is passed over, though it costs least.
chosen : select table policy ≡ (ok, some (2, neighbour 20 1))
unfolding select any_of all_of get valid_table valid_mask entry costs_valid eligible_from permits
    same_bytes delta_of add choose best_from dominates improves choose_best copy
chosen = refl

-- Three update ids of which each is newer than the next.
abbrev cycle : Candidates
cycle = record table { entries = neighbour 11 0 ∷ neighbour 15 100 ∷ neighbour 20 200 ∷ [] }

cyclic : select cycle policy ≡ (ambiguous_update, none)
unfolding select any_of all_of get valid_table valid_mask entry costs_valid eligible_from permits
    same_bytes delta_of add choose best_from dominates improves choose_best copy
cyclic = refl

empty_table : init 0x0800 ≡ (
  table_ok,
  some (record { version = 1; channel_mask = 0x0800; entries = []; filtered = 0; parent = 0 }),
)
unfolding init valid_mask
empty_table = refl

select-IsParent_example : IsParent policy table.entries 2 (neighbour 20 1)
select-IsParent_example =
    select-IsParent table policy 2 (neighbour 20 1) (omega arith, (omega arith, (omega arith, tt)))
      (omega arith) chosen

-- Its ids have no newest one.
select-IsAmbiguous_example : IsAmbiguous policy cycle.entries
select-IsAmbiguous_example =
    select-IsAmbiguous cycle policy none (omega arith, (omega arith, (omega arith, tt)))
      (omega arith) cyclic

table-IsWellFormed : IsWellFormed table
unfolding valid_table valid_mask find same_identity same_bytes is_eligible
table-IsWellFormed = record {
  valid = refl;
  distinct = (refl, (refl, (refl, tt)));
  eligible = (refl, (refl, (refl, tt)));
}

-- A beacon of the neighbour on channel 15, with update id 5.
abbrev beacon_bytes : List ℕ
beacon_bytes =
    0 ∷ 0x80 ∷ 7 ∷ 0x62 ∷ 0x1a ∷ 0 ∷ 0 ∷ 0xff ∷ 0xcf ∷ 0 ∷ 0 ∷ 0 ∷ 0x22 ∷ 0x84 ∷ 1 ∷ 2 ∷ 3 ∷ 4 ∷ 5
    ∷ 6 ∷ 7 ∷ 8 ∷ 0 ∷ 0 ∷ 0 ∷ 5 ∷ []

received : hear table 15 1 (bytes beacon_bytes) ≡ heard (neighbour 15 5)
unfolding hear hear_frame hear_beacon hear_network candidate_of valid_table valid_mask permits
    Codec.decode Codec.decode_profile Codec.decode_bytes Codec.decode_shaped Codec.read_start
    Codec.read_source Codec.read_destination Codec.command_status Codec.beacon_status header_shape
    address_policy decode_beacon beacon_fields beacon_lists any_broadcast NwkBeacon.decode any_of
    all_of NwkBeacon.read_beacon or_le16
received = refl

consider-IsWellFormed_example : IsWellFormed (consider table 15 1 (bytes beacon_bytes)).1
consider-IsWellFormed_example =
    consider-IsWellFormed table 15 1 (bytes beacon_bytes) table-IsWellFormed

-- The entry of the neighbour is the new one.
find-consider_example :
    find (neighbour 15 1) (consider table 15 1 (bytes beacon_bytes)).1.entries ≡ (
      if is_full (consider table 15 1 (bytes beacon_bytes)).0
      then find (neighbour 15 1) table.entries
      else if same_identity (neighbour 15 5) (neighbour 15 1)
      then (if is_eligible table (neighbour 15 5) then some (neighbour 15 5) else none)
      else find (neighbour 15 1) table.entries)
find-consider_example =
    find-consider table 15 1 (bytes beacon_bytes) (neighbour 15 5) (neighbour 15 1)
      table-IsWellFormed received
