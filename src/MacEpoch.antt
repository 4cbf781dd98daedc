-- ===== src/MacEpoch.antt =====
-- src/mac_epoch.c: raw radio time stamps, a fine counter of 512 steps and a 24-bit overflow
-- counter, extended to a 32-bit count of symbols that goes on across overflows.
pub mod Laws
mod Tests
use cc2530_zigbee.Base.{
  ℕ, ◌+◌, ◌-◌, Bool, true, false, ◌&&◌, ◌||◌, ltb, leb, ◌==◌, ◌!=◌, if◌then◌else◌, Option, none,
  some, u32, not,
}

-- `mac_epoch_result_t`
pub data Result : Type 0 where
  ok invalid_argument invalid_state time_error : Result

-- `MAC_TIME_FINE_PERIOD` and `MAC_TIME_OVERFLOW_PERIOD`
abbrev pub fine_period : ℕ
fine_period = 512

abbrev pub overflow_period : ℕ
overflow_period = 0x00ffffff

abbrev pub ready : ℕ
ready = 1

abbrev pub fault : ℕ
fault = 2

-- `mac_time_stamp_t`, as far as it is read here
pub record Raw : Type 0 where
  pub periods : ℕ
  pub fine : ℕ

-- `mac_epoch_stamp_t`
pub record Stamp : Type 0 where
  pub symbols : ℕ
  pub fine : ℕ

-- `mac_epoch_t`
pub record Epoch : Type 0 where
  pub periods : ℕ
  pub symbols : ℕ
  pub fine : ℕ
  pub state : ℕ

-- `valid` on a pointer that is not NULL
pub valid : Raw → Bool
valid raw = ltb raw.fine fine_period && ltb raw.periods overflow_period

-- `mac_epoch_start`; the result is the context after the call, none where it is left alone.
pub start : Raw → ℕ → Result × Option Epoch
unfolding valid
start raw symbols = if not (valid raw) then (invalid_argument, none) else (
  ok,
  some (record { periods = raw.periods; symbols = symbols; fine = raw.fine; state = ready }),
)

-- The overflow counts between the context and a stamp.
pub elapsed_periods : Epoch → Raw → ℕ
elapsed_periods c raw =
    if leb c.periods raw.periods
    then raw.periods - c.periods
    else overflow_period - c.periods + raw.periods

-- `whole` and `fraction`; none is the jump to `fault` for a stamp before the context.
pub split : Epoch → Raw → ℕ → Option (ℕ × ℕ)
split c raw periods =
    if ltb raw.fine c.fine
    then (if periods == 0 then none else some (periods - 1, fine_period - c.fine + raw.fine))
    else some (periods, raw.fine - c.fine)

-- `if (whole > 0x007fffffUL || (whole == 0x007fffffUL && fraction >= 256u))`
pub too_far : ℕ × ℕ → Bool
too_far (whole, fraction) = ltb 0x007fffff whole || (whole == 0x007fffff && leb 256 fraction)

pub fail : Epoch → Result × Epoch × Option Stamp
fail c = (time_error, record c { state = fault }, none)

pub advance : Epoch → Raw → Result × Epoch × Option Stamp
advance c raw = (
  ok,
  record c {
    periods = raw.periods;
    symbols = u32 (c.symbols + elapsed_periods c raw);
    fine = raw.fine;
  },
  some (record { symbols = u32 (c.symbols + elapsed_periods c raw); fine = raw.fine }),
)

pub move : Epoch → Raw → Option (ℕ × ℕ) → Result × Epoch × Option Stamp
unfolding too_far fail advance elapsed_periods
move c raw none = fail c
move c raw (some gap) = if too_far gap then fail c else advance c raw

-- `mac_epoch_step` on pointers that are not NULL; the option is what is written to `*output`.
pub step : Epoch → Raw → Result × Epoch × Option Stamp
unfolding valid move split elapsed_periods
step c raw =
    if c.state == fault
    then (time_error, c, none)
    else if not (valid raw)
    then (invalid_argument, c, none)
    else if c.state != ready || leb fine_period c.fine || leb overflow_period c.periods
    then (invalid_state, c, none)
    else move c raw (split c raw (elapsed_periods c raw))
