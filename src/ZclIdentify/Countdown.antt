-- ===== src/ZclIdentify/Countdown.antt =====
-- The countdown as a number of milliseconds that are left.
use cc2530_zigbee.Base.{ℕ, ◌+◌, ◌-◌, ◌*◌, ◌/◌, ◌^◌, ◌≤◌, ◌<◌, ◌≡◌, u32, arith}
use cc2530_zigbee.ZclFrame
use cc2530_zigbee.ZclFrame.{Result, ok}
use cc2530_zigbee.ZclIdentify.{Identify, tick}

-- The contexts that the calls make: fields in their types' range, and a phase of less than a
-- second, which is 0 when nothing remains.
pub record IsIdentify (c : Identify) : Type 0 where
  pub stamp : c.stamp < 2 ^ 32
  pub remaining : c.remaining < 2 ^ 16
  pub phase : c.phase < 1000
  pub idle : (c.remaining ≡ 0) → c.phase ≡ 0

-- The milliseconds left.
abbrev pub left : Identify → ℕ
left c = c.remaining * 1000 - c.phase

-- The context at a time with milliseconds left: a started second counts as remaining.
abbrev pub counting : ℕ → ℕ → Identify
counting now ms = record {
  stamp = now;
  remaining = (ms + 999) / 1000;
  phase = (ms + 999) / 1000 * 1000 - ms;
}

-- A tick less than 2 ^ 31 ms after the last takes exactly that time off what is left, down to 0,
-- whatever the phase of the second, also when the clock wraps.
pub tick-counting :
    (c : Identify) (d : ℕ)
    → IsIdentify c
    → d < 2 ^ 31
    → tick c (u32 (c.stamp + d)) ≡ (ok, counting (u32 (c.stamp + d)) (left c - d))
unfolding tick
tick-counting c d w h = ground (arith, w.stamp, w.remaining, w.phase, w.idle)

-- A tick that comes earlier than the last, or at least 2 ^ 31 ms later, changes nothing.
pub tick_refuses :
    (c : Identify) (d : ℕ)
    → IsIdentify c
    → 2 ^ 31 ≤ d
    → d < 2 ^ 32
    → tick c (u32 (c.stamp + d)) ≡ (ZclFrame.Result.invalid_value, c)
unfolding tick
tick_refuses c d w h g = ground (arith, w.stamp)

pub tick-IsIdentify :
    (c : Identify) (now : ℕ) → IsIdentify c → now < 2 ^ 32 → IsIdentify (tick c now).1
unfolding tick
tick-IsIdentify c now w h = record {
  stamp = ground (arith, w.stamp);
  remaining = ground (arith, w.remaining);
  phase = ground (arith, w.phase);
  idle = ground (arith, w.phase, w.idle);
}
