-- ===== src/NoiseHealth.antt =====
-- src/noise_health.c: the continuous health tests of the noise source, a repetition count test
-- (RCT) and an adaptive proportion test (APT) over windows of 1024 samples.
pub mod Laws
mod Tests
use cc2530_zigbee.Base.{
  ℕ, ◌+◌, ◌-◌, Bool, true, false, ◌&&◌, ◌||◌, ltb, leb, ◌==◌, ◌!=◌, if◌then◌else◌, Option, none,
  some, u16,
}

-- `noise_health_result_t`
pub data Result : Type 0 where
  ok invalid_argument invalid_state rct_failure apt_failure : Result

abbrev pub window : ℕ
window = 1024

-- The `state` byte.
abbrev pub warmup : ℕ
warmup = 1

abbrev pub monitoring : ℕ
monitoring = 2

abbrev pub rct_failed : ℕ
rct_failed = 3

abbrev pub apt_failed : ℕ
apt_failed = 4

-- `noise_health_t`
pub record Health : Type 0 where
  pub rct_cutoff : ℕ
  pub apt_cutoff : ℕ
  pub run : ℕ
  pub matches : ℕ
  pub window_count : ℕ
  pub startup_remaining : ℕ
  pub last : ℕ
  pub reference : ℕ
  pub state : ℕ

-- `noise_health_start`; the option is the context after the call, none where it is left alone.
pub start : ℕ → ℕ → Result × Option Health
start rct_cutoff apt_cutoff =
    if ltb rct_cutoff 2 || ltb apt_cutoff 2 || ltb window apt_cutoff
    then (invalid_argument, none)
    else (
      ok,
      some (record {
        rct_cutoff = rct_cutoff;
        apt_cutoff = apt_cutoff;
        run = 0;
        matches = 0;
        window_count = 0;
        startup_remaining = window;
        last = 0;
        reference = 0;
        state = warmup;
      }),
    )

-- The condition under which `noise_health_push` refuses the context as corrupt.
pub corrupt : Health → Bool
corrupt c =
    (c.state != warmup && c.state != monitoring)
    || ltb c.rct_cutoff 2
    || ltb c.apt_cutoff 2
    || ltb window c.apt_cutoff
    || leb c.rct_cutoff c.run
    || ltb 1 c.last
    || ltb 1 c.reference
    || leb window c.window_count
    || ltb c.window_count c.matches
    || leb c.apt_cutoff c.matches
    || (c.window_count != 0 && c.matches == 0)
    || ltb window c.startup_remaining
    || (c.state == warmup
        && (c.startup_remaining == 0
            || c.window_count != window - c.startup_remaining
            || ltb c.window_count c.run))
    || (c.state == monitoring && (c.startup_remaining != 0 || c.run == 0))

-- `if (ctx->run != 0 && sample == ctx->last) ctx->run++; else { … }`
pub count_run : ℕ → Health → Health
count_run sample c =
    if c.run != 0 && sample == c.last
    then record c { run = u16 (c.run + 1) }
    else record c { last = sample; run = 1 }

-- The adaptive proportion counts, the window and the startup countdown.
pub count_match : ℕ → Health → Health
count_match sample c =
    if c.window_count == 0
    then record c { reference = sample; matches = 1 }
    else if sample == c.reference
    then record c { matches = u16 (c.matches + 1) }
    else c

pub advance_window : Health → Health
advance_window c = record c {
  window_count = u16 (c.window_count + 1);
  startup_remaining =
      if c.startup_remaining != 0 then c.startup_remaining - 1 else c.startup_remaining;
}

-- From the cutoff tests to the end of `noise_health_push`.
pub judge : Health → Result × Health
judge c =
    if leb c.rct_cutoff c.run
    then (rct_failure, record c { state = rct_failed })
    else if leb c.apt_cutoff c.matches
    then (apt_failure, record c { state = apt_failed })
    else (
      ok,
      record c {
        matches = if c.window_count == window then 0 else c.matches;
        window_count = if c.window_count == window then 0 else c.window_count;
        state = if c.startup_remaining == 0 then monitoring else c.state;
      },
    )

-- `noise_health_push` on a context that is not NULL.
pub push : Health → ℕ → Result × Health
push c sample =
    if ltb 1 sample
    then (invalid_argument, c)
    else if c.state == rct_failed
    then (rct_failure, c)
    else if c.state == apt_failed
    then (apt_failure, c)
    else if corrupt c
    then (invalid_state, c)
    else judge (advance_window (count_match sample (count_run sample c)))
