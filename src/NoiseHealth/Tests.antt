-- ===== src/NoiseHealth/Tests.antt =====
-- Runs and witnesses of the health tests.
use cc2530_zigbee.Base.{◌≡◌, refl, some, [], ◌∷◌, arith}
use cc2530_zigbee.NoiseHealth.{
  Health, warmup, rct_failure, start, push, corrupt, count_run, count_match, advance_window, judge,
}
use cc2530_zigbee.NoiseHealth.Laws.{Tracks, session, session-Tracks, session-verdict}

-- The context with cutoffs 3 and 20 after 0, 1, 1.
abbrev doubled : Health
doubled = record {
  rct_cutoff = 3;
  apt_cutoff = 20;
  run = 2;
  matches = 1;
  window_count = 3;
  startup_remaining = 1021;
  last = 1;
  reference = 0;
  state = warmup;
}

doubled_run : session 3 20 (1 ∷ 1 ∷ 0 ∷ []) ≡ some doubled
unfolding session start push corrupt count_run count_match advance_window judge
doubled_run = refl

session-Tracks_example : Tracks 3 20 (1 ∷ 1 ∷ 0 ∷ []) doubled
session-Tracks_example =
    session-Tracks 3 20 (1 ∷ 1 ∷ 0 ∷ []) (omega arith) (omega arith) doubled_run

session-verdict_example : (push doubled 1).0 ≡ rct_failure
session-verdict_example =
    session-verdict 3 20 1 (1 ∷ 1 ∷ 0 ∷ []) (omega arith) (omega arith) doubled_run
