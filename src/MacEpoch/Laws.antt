-- ===== src/MacEpoch/Laws.antt =====
-- The epoch against an ideal clock that counts fine steps from the start and never wraps.
use cc2530_zigbee.Base.{
  ℕ, ◌+◌, ◌-◌, ◌*◌, ◌/◌, ◌%◌, ◌≤◌, ◌<◌, ◌^◌, ◌≡◌, refl, Option, none, some, List, [], ◌∷◌, arith,
  u32,
}
use cc2530_zigbee.MacEpoch.{
  ok, time_error, Raw, Stamp, Epoch, fine_period, overflow_period, ready, fault, start, step,
}

-- The stamp that the radio shows at fine step `t` of an ideal clock.
abbrev pub raw_at : ℕ → Raw
raw_at t = record { periods = t / fine_period % overflow_period; fine = t % fine_period }

-- A context that stands at step `t`, with `base` symbols at step 0.
abbrev pub epoch_at : ℕ → ℕ → Epoch
epoch_at base t = record {
  periods = t / fine_period % overflow_period;
  symbols = u32 (base + t / fine_period);
  fine = t % fine_period;
  state = ready;
}

-- The largest step that can be told from a step back: half of the range of the raw stamps.
abbrev pub half_range : ℕ
half_range = 0x007fffff * fine_period + 256

-- From step `t` a stamp `d` steps on, less than half of the raw range, is followed exactly: the
-- context comes to stand at step `t + d`, and the output is that step, across overflows of the
-- raw counters and wraps of the symbol count.
pub step_follows :
    (base t d : ℕ)
    → d < half_range
    → step (epoch_at base t) (raw_at (t + d)) ≡ (
      ok,
      epoch_at base (t + d),
      some (record { symbols = u32 (base + (t + d) / fine_period); fine = (t + d) % fine_period }),
    )
unfolding step
step_follows base t d h = ground arith

-- A stamp from half of the raw range up to the whole of it is refused as a step back: the context
-- faults, keeps its other fields and gives no output.
pub step_refuses :
    (base t d : ℕ)
    → half_range ≤ d
    → d < overflow_period * fine_period
    → step (epoch_at base t) (raw_at (t + d))
      ≡ (time_error, record (epoch_at base t) { state = fault }, none)
unfolding step
step_refuses base t d h k = ground arith

-- The outputs of `mac_epoch_step` on the stamps of a clock that moves on by the given gaps.
pub follow : Epoch → ℕ → List ℕ → List (Option Stamp)
follow c t [] = []
follow c t (d ∷ ds) = let (r, c', out) = step c (raw_at (t + d)) in out ∷ follow c' (t + d) ds

-- The ideal clock's own stamps, with a symbol for every period since the start.
pub ideal : ℕ → ℕ → List ℕ → List (Option Stamp)
ideal base t [] = []
ideal base t (d ∷ ds) =
    some (record { symbols = u32 (base + (t + d) / fine_period); fine = (t + d) % fine_period })
    ∷ ideal base (t + d) ds

abbrev pub AllBelow : ℕ → List ℕ → Type 0
AllBelow n [] = Unit {0}
AllBelow n (d ∷ ds) = (d < n) × AllBelow n ds

follow_lem :
    (base t : ℕ) (ds : List ℕ)
    → AllBelow half_range ds
    → follow (epoch_at base t) t ds ≡ ideal base t ds
unfolding follow ideal
follow_lem base t [] h = refl
follow_lem base t (d ∷ ds) h = rw (step_follows base t d h.0, follow_lem base (t + d) ds h.1)

-- Started at step `t` with any symbol count, the epoch gives the stamps of the ideal clock for
-- every sequence of gaps below half of the raw range, whatever their sum.
pub follow-ideal :
    (symbols t : ℕ) (ds : List ℕ) {c : Epoch}
    → symbols < 2 ^ 32
    → AllBelow half_range ds
    → start (raw_at t) symbols ≡ (ok, some c)
    → follow c t ds ≡ ideal (symbols + 2 ^ 32 * (t / fine_period) - t / fine_period) t ds
unfolding start
follow-ideal symbols t ds {c} b h e =
    let here : c ≡ epoch_at (symbols + 2 ^ 32 * (t / fine_period) - t / fine_period) t =
      ground arith in
    rw here (follow_lem (symbols + 2 ^ 32 * (t / fine_period) - t / fine_period) t ds h)
