-- ===== src/NwkParent/Consider.antt =====
-- src/nwk_candidates.c: nwk_candidates_consider, which enters a received beacon in the table.
use cc2530_zigbee.Base.{
  ℕ, ◌+◌, ◌/◌, ◌^◌, Bool, true, not, ◌&&◌, ◌||◌, ltb, ◌==◌, ◌!=◌, if◌then◌else◌, Option, none, some,
  List, [], ◌∷◌, ◌++◌, length, get_or, take, drop, u8, bit_and, Source, bytes, null,
}
use cc2530_zigbee.MacFrame
use cc2530_zigbee.MacFrame.{FrameInfo}
use cc2530_zigbee.MacFrame.Codec
use cc2530_zigbee.MacFrame.BeaconFields.{BeaconInfo, decode_beacon}
use cc2530_zigbee.NwkBeacon
use cc2530_zigbee.NwkBeacon.{Beacon}
use cc2530_zigbee.NwkParent.{
  Candidate, Candidates, TableResult, added, updated, withdrawn, not_eligible, full, bad_crc,
  table_invalid_argument, table_invalid, outside_mask, mac_rejected, not_beacon, nwk_rejected,
  capacity, valid_table, same_bytes, permits,
}

unfoldable pub same_identity : Candidate → Candidate → Bool
same_identity a b =
    a.channel == b.channel
    && a.pan_id == b.pan_id
    && a.address_mode == b.address_mode
    && same_bytes a.coordinator b.coordinator
    && same_bytes a.network.extended_pan_id b.network.extended_pan_id

-- The candidate of a beacon.
unfoldable pub candidate_of : ℕ → FrameInfo → BeaconInfo → Beacon → Candidate
candidate_of channel frame beacon network = record {
  channel = channel;
  pan_id = frame.header.source_pan;
  address_mode = frame.header.source_mode;
  coordinator = frame.header.source;
  superframe = beacon.superframe_specification;
  sequence = frame.header.sequence;
  mac_flags = frame.header.flags;
  gts_permit = beacon.gts_permit;
  short_pending = beacon.short_count;
  extended_pending = beacon.extended_count;
  network = network;
}

-- `eligible`
unfoldable pub is_eligible : Candidates → Candidate → Bool
is_eligible t x =
    x.network.stack_profile == 2
    && bit_and x.superframe 0x000f == 15
    && bit_and x.superframe 0x8000 != 0
    && x.network.end_device_capacity != 0
    && (t.filtered == 0
        || x.address_mode != 2
        || (get_or x.coordinator 0 0 == u8 t.parent
            && get_or x.coordinator 1 0 == u8 (t.parent / 2 ^ 8)))

-- What the guards and the decoders make of a received body.
pub data Heard : Type 0 where
  rejected : TableResult → Heard
  heard : Candidate → Heard

unfoldable pub hear_network : ℕ → FrameInfo → BeaconInfo → NwkBeacon.Result × Option Beacon → Heard
hear_network channel frame beacon (NwkBeacon.ok, some network) =
    heard (candidate_of channel frame beacon network)
hear_network channel frame beacon (status, o) = rejected nwk_rejected

unfoldable pub hear_beacon : ℕ → List ℕ → FrameInfo → MacFrame.Result × Option BeaconInfo → Heard
hear_beacon channel body frame (MacFrame.ok, some beacon) = hear_network channel frame beacon (
    NwkBeacon.decode
      (bytes
        (take beacon.payload_length (drop (frame.payload_offset + beacon.payload_offset) body)))
      true)
hear_beacon channel body frame (status, o) = rejected mac_rejected

unfoldable pub hear_frame : ℕ → List ℕ → MacFrame.Result × Option FrameInfo → Heard
hear_frame channel body (MacFrame.ok, some frame) =
    if frame.header.type != 0
    then rejected not_beacon
    else hear_beacon channel body frame
        (decode_beacon (bytes (take frame.payload_length (drop frame.payload_offset body))) true)
hear_frame channel body (status, o) = rejected mac_rejected

-- Up to the candidate; `crc_valid` is a byte.
unfoldable pub hear : Candidates → ℕ → ℕ → Source → Heard
hear t channel crc_valid (null n) = rejected table_invalid_argument
hear t channel crc_valid (bytes body) =
    if ltb channel 11 || ltb 26 channel || ltb 1 crc_valid
    then rejected table_invalid_argument
    else if not (valid_table t)
    then rejected table_invalid
    else if crc_valid == 0
    then rejected bad_crc
    else if not (permits t.channel_mask channel)
    then rejected outside_mask
    else hear_frame channel body (Codec.decode (bytes body) true)

-- The loop over the entries, if one of them has the candidate's identity.
unfoldable pub behind :
    Candidate → Option (TableResult × List Candidate) → Option (TableResult × List Candidate)
behind e none = none
behind e (some (r, es)) = some (r, e ∷ es)

unfoldable pub replace : Candidate → Bool → List Candidate → Option (TableResult × List Candidate)
replace x eligible [] = none
replace x eligible (e ∷ es) =
    if same_identity e x
    then (if eligible then some (updated, x ∷ es) else some (withdrawn, es))
    else behind e (replace x eligible es)

-- From the loop on.
unfoldable pub enter :
    Candidates → Candidate → Bool → Option (TableResult × List Candidate) → TableResult × Candidates
enter t x eligible (some (r, es)) = (r, record t { entries = es })
enter t x eligible none =
    if not eligible
    then (not_eligible, t)
    else if length t.entries == capacity
    then (full, t)
    else (added, record t { entries = t.entries ++ x ∷ [] })

unfoldable pub record_heard : Candidates → Heard → TableResult × Candidates
unfolding enter
record_heard t (rejected status) = (status, t)
record_heard t (heard x) = enter t x (is_eligible t x) (replace x (is_eligible t x) t.entries)

-- `nwk_candidates_consider`
unfoldable pub consider : Candidates → ℕ → ℕ → Source → TableResult × Candidates
unfolding record_heard
consider t channel crc_valid body = record_heard t (hear t channel crc_valid body)
