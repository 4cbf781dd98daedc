-- ===== src/ZclIdentify.antt =====
-- src/zcl_identify.c: the countdown of the Identify server.
pub mod Countdown
pub mod Receive
pub mod Validity
mod Tests
use cc2530_zigbee.Base.{
  ℕ, ◌+◌, ◌-◌, ◌*◌, ◌/◌, ◌^◌, ◌||◌, ◌&&◌, ltb, leb, ◌==◌, ◌!=◌, if◌then◌else◌, Option, none, some,
  Bool, true, false, u16, sub32,
}
use cc2530_zigbee.ZclFrame
use cc2530_zigbee.ZclFrame.{Result, ok, invalid_argument, invalid_value}

-- `zcl_id_t`
pub record Identify : Type 0 where
  pub stamp : ℕ
  pub remaining : ℕ
  pub phase : ℕ

-- The seconds of `elapsed`, which has the phase added to it, taken off the remaining ones.
unfoldable pub count_down : ℕ → Identify → Identify
count_down elapsed next =
    if leb next.remaining (elapsed / 1000)
    then record next { remaining = 0; phase = 0 }
    else record next {
      remaining = next.remaining - u16 (elapsed / 1000);
      phase = u16 (elapsed - elapsed / 1000 * 1000);
    }

-- `advance`: the option is what is written to `*next`.
unfoldable pub advance : Identify → ℕ → Result × Option Identify
unfolding count_down
advance c now =
    let elapsed = sub32 now c.stamp in
    if leb 0x80000000 elapsed || leb 1000 c.phase || (c.remaining == 0 && c.phase != 0)
    then (invalid_value, none)
    else (
      ok,
      some (
          if c.remaining != 0
          then count_down (elapsed + c.phase) (record c { stamp = now })
          else record c { stamp = now }),
    )

-- `zcl_id_init` on a context, or on NULL
unfoldable pub init : Bool → ℕ → Result × Option Identify
init false now = (invalid_argument, none)
init true now = (ok, some (record { stamp = now; remaining = 0; phase = 0 }))

-- `*ctx = next`, when `advance` has answered ok
abbrev pub committed : Identify → Option Identify → Identify
committed c none = c
committed c (some next) = next

-- `zcl_id_tick` on a context that is not NULL
unfoldable pub tick : Identify → ℕ → Result × Identify
unfolding advance
tick c now = let (rc, next) = advance c now in (rc, committed c next)
