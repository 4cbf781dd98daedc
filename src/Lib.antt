-- ===== src/Lib.antt =====
-- cc2530_zigbee: models of the firmware in this repository, and theorems about them.
--
-- The firmware is a ZigBee end device for the CC2530: frame codecs (MAC, NWK, APS, ZCL), the health tests
-- of the noise source, the MAC's extension of a raw timer, and the outgoing frame counters of the
-- NWK and APS layers, whose ranges are recorded in a two-page flash journal. The codecs are called
-- on one frame at a time and keep no state; the counters call the journal and nothing else; the
-- radio queue stands between interrupts, the receiver and the foreground. The choice of a parent reads
-- a table of the beacons heard. Of the ZCL server, the dispatcher serves discovery and reads over a
-- table of attributes, and writes and Identify have handlers of their own.
--
-- Parts:
--   Base             C arrays as lists (Arrays), uint8_t, uint16_t and uint32_t with their wrap-around
--                    (Words, Bits), little-endian words in a buffer (Le32), pointer arguments (Pointers)
--   SecurityCounter  src/security_counter.c. Defs: the state `security_counter_diagnostic` with the
--                    blob, and the static helpers; Operations: one function for each call of the API,
--                    where `start` is security_counter_open and `take_value` security_counter_take;
--                    Bytes: where the floors stand; Freshness: the invariant; Run: runs of calls;
--                    InFlash: on src/nv_record.c
--   NvRecord         src/nv_record.c. Journal: what its users rely on, as a record of calls and laws;
--                    Flash: what it relies on of flash_nv_read, flash_nv_program and flash_nv_erase;
--                    Crc, Scan, Load, Replace: its code; View, Read: a scan as a function of the page;
--                    Record: the record that two pages hold; Selection, Loading, Loads: loads; NewPage,
--                    Outcome, Writing, Filling, Attempt, Attempts, Replacing, Replacements: replacements;
--                    Healthy, Success: a flash that carries out what it does not refuse;
--                    Implementation: the code as a Journal; Memory: a flash in memory, with
--                    refusals and torn erases, for the witnesses
--   NwkFrame         src/nwk_frame.c: nwk_frame_decode, nwk_frame_encode, header_shape
--   ApsFrame         src/aps_frame.c: aps_frame_decode, aps_frame_encode, validate_header
--   ZclFrame         src/zcl_frame.c: zcl_frame_decode, zcl_frame_encode
--   NoiseHealth      src/noise_health.c: noise_health_start and noise_health_push
--   MacEpoch         src/mac_epoch.c: mac_epoch_start and mac_epoch_step
--   RadioQueue       src/radio_queue.c: the ring of requests, two received frames and one to be sent;
--                    Fifo: the requests; Frames: the frames
--   ZclValue         src/zcl_value.c: zcl_value_decode, zcl_value_encode, non_value_pattern
--   ZclAttributes    src/zcl_attributes.c: zcl_attr_set_check, and zcl_read_attrs_unicast as `read_attrs`;
--                    Table: which tables pass; Room: the records in the response
--   ZclWrite         src/zcl_write.c: zcl_wr_handle as `handle`, its loop as `scan`; Room: the error
--                    records; Fuel: the loop's fuel; Written, Undivided: the value it leaves
--   ZclDispatch      src/zcl_dispatch.c: zcl_dispatch_unicast as `dispatch`; Discover: next_attribute and
--                    the loop of discover; Ascending, Listed: what it lists; Reply, Served, Replies:
--                    the responses
--   ZclIdentify      src/zcl_identify.c: zcl_id_init and zcl_id_tick with their advance; Receive:
--                    zcl_id_rx as `rx`; Countdown, Validity: the context
--   NwkBeacon        src/nwk_beacon.c: nwk_beacon_decode
--   NwkParent        src/nwk_parent.c: nwk_parent_select as `select`, its loops as `eligible_from` and
--                    `best_from`; of src/nwk_candidates.c the init, the parent filter and the reads.
--                    Eligibility, Collected, Best, Newest: its two loops; Choice: its answers;
--                    Consider: nwk_candidates_consider; Identity, Tables, Entering: the table as a map
--   MacFrame         src/mac_frame.c: header_shape and address_policy; Command: the commands;
--                    BeaconFields: beacon payloads; Codec: mac_frame_decode_profile, mac_frame_decode
--                    and mac_frame_encode; Shape, Parts, Stored, Emitted, RoundTrip, Commands: proofs
--
-- Correspondence: a function that writes outputs through pointers answers a pair of its result and an
-- option with what it wrote; a call on module state takes the state and returns it. A pointer is NULL
-- where a `Source` is `null`, an option is `none` or a Boolean says so. Subtraction that wraps is
-- written with its modulus. Every loop runs over an array of fixed or given length and is structural
-- recursion, but for two that run on fuel: the loop of zcl_wr_handle, whose records vary in length, on
-- one more than the length of the payload, of which each record takes at least three octets; and the
-- loop of discover, on one more than a third of its budget, of which each round takes three octets. What
-- hardware and its drivers answer to a call (an interrupt token restored, the receiver's result and
-- frame) is an argument of the call.
--
-- The profile is the one without CC2530_MAC_LINK_WORKSPACE, CC2530_MAC_LINK_CHILD_WORKSPACE,
-- CC2530_ROUTER_JOIN and CC2530_PARENT_RECOVERY: CW_RETURN and the LW_ forms are identities, and
-- NV_RECORD_MAX is 128. The addresses of security_counter_reserved_end and nv_record_reserved_end
-- are chosen by the linker and are parameters.
--
-- The flash is a parameter of the journal's model. Its laws are those of the two pages as bytes: a
-- call changes no other page, and a program no other word of its page. A word whose program fails, and
-- a page whose erase fails, may hold anything. Power that is lost within a call is a call of the flash
-- that fails there, with a reset behind it. What a torn erase leaves may by its bytes pass for a page
-- of the journal, and `Torn` of NvRecord/Replacing is that case. Where it is excluded, the hypothesis
-- is `DetectsTears`: a scan finds a page that a failed erase has changed not valid, nor of another
-- version (include/nv_record.h relies on the CRC for accidental corruption). The torn erases of
-- tests/test_nv_record.c, which erase a first part of the page, meet it: the magic word is lost. That a
-- call succeeds rests on `IsHealthy` of NvRecord/Healthy: the rules of include/flash_write.h for what is
-- refused, on hardware that does not fail. The static arrays `header`, `footer`,
-- the chunk and the word are written in every call before they are read, and are values of the
-- model's functions. nwk_parent_select reads the entries of its table, where the source calls
-- nwk_candidates_get again for each: the first call has found the table valid and every index of
-- the loop is below its count.
--
-- Not modelled: the drivers of hardware registers, which are loads and stores of the chip; the state
-- machines of MAC transactions, of polling, joining and commissioning; sessions, keys and frame
-- protection; the clusters of the sensors; the shallow forms of the MAC codec, which repeat it for one
-- link profile.
pub mod Base
pub mod NoiseHealth
pub mod MacEpoch
pub mod MacFrame
pub mod ApsFrame
pub mod ZclFrame
pub mod NwkFrame
pub mod NvRecord
pub mod SecurityCounter
pub mod NwkBeacon
pub mod ZclDispatch
pub mod ZclIdentify
pub mod ZclValue
pub mod ZclWrite
pub mod ZclAttributes
pub mod RadioQueue
pub mod NwkParent
