-- ===== src/MacEpoch/Tests.antt =====
-- Runs and witnesses of the epoch.
use cc2530_zigbee.Base.{ℕ, ◌+◌, ◌-◌, ◌*◌, ◌/◌, ◌^◌, ◌≡◌, refl, some, List, [], ◌∷◌, arith}
use cc2530_zigbee.MacEpoch.{Epoch, ok, fine_period, ready, start, step}
use cc2530_zigbee.MacEpoch.Laws.{epoch_at, raw_at, step_follows, follow, ideal, follow-ideal}

-- One step across the overflow of the raw period counter.
step_follows_example :
    step (epoch_at 7 (0xfffffe * 512 + 500)) (raw_at (0xfffffe * 512 + 500 + 600))
    ≡ (ok, epoch_at 7 (0xfffffe * 512 + 1100), some (record { symbols = 7 + 0x1000000; fine = 76 }))
step_follows_example = step_follows 7 (0xfffffe * 512 + 500) 600 (omega arith)

abbrev gaps : List ℕ
gaps = 600 ∷ 0x3fffffff ∷ 0x3fffffff ∷ 0x3fffffff ∷ []

abbrev begun : Epoch
begun = record { periods = 1; symbols = 5; fine = 488; state = ready }

follow-ideal_example :
    follow begun 1000 gaps
    ≡ ideal (5 + 2 ^ 32 * (1000 / fine_period) - 1000 / fine_period) 1000 gaps
unfolding start
follow-ideal_example = follow-ideal 5 1000 gaps (omega arith) (omega arith) refl
