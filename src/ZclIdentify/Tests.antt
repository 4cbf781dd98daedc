-- ===== src/ZclIdentify/Tests.antt =====
-- Runs and witnesses of the Identify countdown.
use cc2530_zigbee.Base.{
  ℕ, ◌⊎◌, refl, true, none, some, List, [], ◌∷◌, bytes, or_le16, ◌-◌, ◌^◌, ◌≡◌, arith,
}
use cc2530_zigbee.ZclFrame
use cc2530_zigbee.ZclFrame.{ok, invalid_value}
use cc2530_zigbee.ZclIdentify.{Identify, tick, advance}
use cc2530_zigbee.ZclIdentify.Countdown.{IsIdentify, tick-counting}
use cc2530_zigbee.ZclDispatch.{blank}
use cc2530_zigbee.ZclIdentify.Receive.{rx, rx_advanced, serve_decoded, serve, identify, commit}
use cc2530_zigbee.ZclIdentify.Validity.{rx-IsIdentify}

-- Ten seconds, 400 ms of the first gone, just before the clock wraps.
abbrev ten : Identify
ten = record { stamp = 2 ^ 32 - 100; remaining = 10; phase = 400 }

ten-IsIdentify : IsIdentify ten
ten-IsIdentify = record {
  stamp = omega arith;
  remaining = omega arith;
  phase = omega arith;
  idle = λ e. absurd (omega arith);
}

tick-counting_example : tick ten 2000 ≡ (ok, record { stamp = 2000; remaining = 8; phase = 500 })
tick-counting_example = tick-counting ten 2100 ten-IsIdentify (omega arith)

-- Identify for 300 seconds, with no default response.
abbrev request : List ℕ
request = 0x11 ∷ 7 ∷ 0 ∷ 0x2c ∷ 1 ∷ []

restarted : rx ten 2000 (bytes request) true 100 ≡ (
  (ok, some (none, record (blank 7) { kind = 2 })),
  record { stamp = 2000; remaining = 300; phase = 0 },
)
unfolding rx rx_advanced advance serve_decoded serve identify commit ZclFrame.decode
    ZclFrame.read_header or_le16
restarted = refl

rx-IsIdentify_example :
    IsIdentify (rx ten 2000 (bytes request) true 100).1
    × (((rx ten 2000 (bytes request) true 100).0.0 ≡ ok)
        ⊎ ((rx ten 2000 (bytes request) true 100).1 ≡ ten))
rx-IsIdentify_example = rx-IsIdentify ten 2000 (bytes request) true 100 ten-IsIdentify (omega arith)
