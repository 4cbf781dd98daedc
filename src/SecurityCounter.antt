-- ===== src/SecurityCounter.antt =====
-- src/security_counter.c: the outgoing frame counters of the NWK and APS layers, handed out from
-- ranges that are recorded in the journal before the first value of a range is used.
pub mod Defs
pub mod Bytes
pub mod Operations
pub mod Freshness
pub mod Run
pub mod InFlash
mod Tests
