-- ===== src/NoiseHealth/Laws.antt =====
-- What the health tests detect: the state of the context as a function of the samples pushed.
use cc2530_zigbee.Base.{
  ℕ, ◌+◌, ◌≤◌, ◌<◌, ◌^◌, ◌≡◌, ◌≢◌, refl, subst, ◌⊎◌, inl, false, leb, ◌==◌, ◌!=◌, ◌&&◌,
  if◌then◌else◌, Option, none, some, List, [], ◌∷◌, length, arith,
}
use cc2530_zigbee.NoiseHealth.{
  Result, ok, rct_failure, apt_failure, rct_failed, apt_failed, Health, window, warmup, monitoring,
  start, corrupt, count_run, count_match, advance_window, judge, push,
}

-- Samples newest first: the length of the run of equal samples that ends with the newest one.
abbrev pub streak : List ℕ → ℕ
streak [] = 0
streak (x ∷ []) = 1
streak (x ∷ y ∷ h) = if x == y then streak (y ∷ h) + 1 else 1

-- The samples of the window that is still open, newest first.
abbrev pub open_window : List ℕ → List ℕ
open_window [] = []
open_window (x ∷ h) = if length (open_window h) + 1 == window then [] else x ∷ open_window h

abbrev pub oldest : List ℕ → ℕ
oldest [] = 0
oldest (x ∷ []) = x
oldest (x ∷ y ∷ h) = oldest (y ∷ h)

abbrev pub count : ℕ → List ℕ → ℕ
count a [] = 0
count a (x ∷ h) = if x == a then count a h + 1 else count a h

-- How many samples of a window equal its first one.
abbrev pub proportion : List ℕ → ℕ
proportion w = count (oldest w) w

-- The well-formedness that `noise_health_push` keeps while no test has failed.
pub record IsLive (c : Health) : Type 0 where
  pub rct_range : (2 ≤ c.rct_cutoff) × (c.rct_cutoff < 2 ^ 16)
  pub apt_range : (2 ≤ c.apt_cutoff) × (c.apt_cutoff ≤ window)
  pub run_below : c.run < c.rct_cutoff
  pub bits : (c.last ≤ 1) × (c.reference ≤ 1)
  pub window_below : c.window_count < window
  pub matches_below : (c.matches ≤ c.window_count) × (c.matches < c.apt_cutoff)
  pub matches_start : (c.window_count ≡ 0) ⊎ (0 < c.matches)
  pub phase :
      ((c.state ≡ warmup)
        × (0 < c.startup_remaining)
        × (c.startup_remaining + c.window_count ≡ window)
        × (c.run ≤ c.window_count))
      ⊎ ((c.state ≡ monitoring) × (c.startup_remaining ≡ 0) × (0 < c.run))

-- A started context is live and empty.
start-IsLive :
    (rct apt : ℕ) {c : Health}
    → rct < 2 ^ 16
    → (start rct apt).1 ≡ some c
    → IsLive c × (c.run ≡ 0) × (c.window_count ≡ 0) × (c.last ≡ 0)
unfolding start
start-IsLive rct apt h e = ground arith

-- A live context passes the guard of `noise_health_push`.
IsLive-corrupt : (c : Health) → IsLive c → corrupt c ≡ false
unfolding corrupt
IsLive-corrupt c v = ground arith

-- One sample on a live context: the counters before the tests.
abbrev counted : ℕ → Health → Health
counted x c = advance_window (count_match x (count_run x c))

push_live : (c : Health) (x : ℕ) → IsLive c → x ≤ 1 → push c x ≡ judge (counted x c)
unfolding push
push_live c x v h = ground (arith, IsLive-corrupt c v)

abbrev pub newest : List ℕ → ℕ
newest [] = 0
newest (x ∷ h) = x

-- The context after the samples `h`, newest first, none of which failed.
pub record Tracks (rct apt : ℕ) (h : List ℕ) (c : Health) : Type 0 where
  pub live : IsLive c
  pub cutoffs : (c.rct_cutoff ≡ rct) × (c.apt_cutoff ≡ apt)
  pub run_is : c.run ≡ streak h
  pub last_is : c.last ≡ newest h
  pub window_is : c.window_count ≡ length (open_window h)
  pub matches_is : c.matches ≡ proportion (open_window h)
  pub reference_is : (c.window_count ≡ 0) ⊎ (c.reference ≡ oldest (open_window h))

streak-cons :
    (x : ℕ) (h : List ℕ)
    → streak (x ∷ h) ≡ (if streak h != 0 && x == newest h then streak h + 1 else 1)
streak-cons x [] = ground arith
streak-cons x (y ∷ []) = ground arith
streak-cons x (y ∷ z ∷ h) = ground arith

oldest-cons : (x : ℕ) (w : List ℕ) → oldest (x ∷ w) ≡ (if length w == 0 then x else oldest w)
oldest-cons x [] = ground arith
oldest-cons x (y ∷ w) = ground arith

proportion-cons :
    (x : ℕ) (w : List ℕ)
    → proportion (x ∷ w)
      ≡ (if length w == 0 then 1 else if x == oldest w then proportion w + 1 else proportion w)
proportion-cons x [] = ground arith
proportion-cons x (y ∷ w) = ground arith

-- After one more sample the counters are those of the longer history.
counted-is :
    (rct apt x : ℕ) (h : List ℕ) (c : Health)
    → Tracks rct apt h c
    → x ≤ 1
    → ((counted x c).run ≡ streak (x ∷ h))
      × ((counted x c).last ≡ x)
      × ((counted x c).window_count ≡ length (open_window h) + 1)
      × ((counted x c).matches ≡ proportion (x ∷ open_window h))
      × ((counted x c).reference ≡ oldest (x ∷ open_window h))
      × ((counted x c).rct_cutoff ≡ rct)
      × ((counted x c).apt_cutoff ≡ apt)
unfolding count_run count_match advance_window
counted-is rct apt x h c t le =
    ground
      (arith, streak-cons x h, oldest-cons x (open_window h), proportion-cons x (open_window h))

-- What the two tests say of a history, newest sample first.
abbrev pub verdict : ℕ → ℕ → List ℕ → Result
verdict rct apt [] = ok
verdict rct apt (x ∷ h) =
    if leb rct (streak (x ∷ h))
    then rct_failure
    else if leb apt (proportion (x ∷ open_window h))
    then apt_failure
    else ok

-- `noise_health_push` answers a sample with the verdict on the longer history.
pub push-verdict :
    (rct apt x : ℕ) (h : List ℕ) (c : Health)
    → Tracks rct apt h c
    → x ≤ 1
    → (push c x).0 ≡ verdict rct apt (x ∷ h)
unfolding judge
push-verdict rct apt x h c t le =
    ground (arith, push_live c x t.live le, counted-is rct apt x h c t le)

counted-IsLive :
    (c : Health) (x : ℕ)
    → IsLive c
    → x ≤ 1
    → (judge (counted x c)).0 ≡ ok
    → IsLive (judge (counted x c)).1
unfolding judge count_run count_match advance_window
counted-IsLive c x v le e = ground arith

-- A sample that passes leaves a context that tracks the longer history.
pub push-Tracks :
    (rct apt x : ℕ) (h : List ℕ) (c : Health)
    → Tracks rct apt h c
    → x ≤ 1
    → (push c x).0 ≡ ok
    → Tracks rct apt (x ∷ h) (push c x).1
push-Tracks rct apt x h c t le e =
    let live = counted-IsLive c x t.live le (rw (← push_live c x t.live le) e) in
    rw (push_live c x t.live le) (tracked live (rw (← push_live c x t.live le) e))
  where
    tracked :
        IsLive (judge (counted x c)).1
        → (judge (counted x c)).0 ≡ ok
        → Tracks rct apt (x ∷ h) (judge (counted x c)).1
    tracked live passed = record {
      live = live;
      cutoffs = unfold judge in ground (arith, counted-is rct apt x h c t le);
      run_is = unfold judge in ground (arith, counted-is rct apt x h c t le);
      last_is = unfold judge in ground (arith, counted-is rct apt x h c t le);
      window_is = unfold judge in ground (arith, counted-is rct apt x h c t le);
      matches_is = unfold judge in ground (arith, counted-is rct apt x h c t le);
      reference_is = unfold judge in ground (arith, counted-is rct apt x h c t le);
    }

-- The context after `noise_health_start` and the samples, newest first; none once a call refuses.
keep : Result × Health → Option Health
keep (ok, c) = some c
keep (_, c) = none

unfoldable pub session : ℕ → ℕ → List ℕ → Option Health
unfolding keep
session rct apt [] = (start rct apt).1
session rct apt (x ∷ h) = elim (session rct apt h) [ none ↦ none | some c ↦ keep (push c x) ]

abbrev pub Bits : List ℕ → Type 0
Bits [] = Unit {0}
Bits (x ∷ h) = (x ≤ 1) × Bits h

keep-eq-some : (p : Result × Health) {c : Health} → keep p ≡ some c → (p.0 ≡ ok) × (p.1 ≡ c)
unfolding keep
keep-eq-some (ok, c) e = ground arith
keep-eq-some (_, c) e = ground arith

extend :
    (rct apt x : ℕ) (h : List ℕ) (o : Option Health) {c : Health}
    → ((d : Health) → o ≡ some d → Tracks rct apt h d)
    → x ≤ 1
    → (elim o [ none ↦ none | some d ↦ keep (push d x) ]) ≡ some c
    → Tracks rct apt (x ∷ h) c
extend rct apt x h none ih le e = cc
extend rct apt x h (some d) {c} ih le e =
    let passed = keep-eq-some (push d x) e in
    subst (Tracks rct apt (x ∷ h)) passed.1 (push-Tracks rct apt x h d (ih d refl) le passed.0)

-- Started with cutoffs that `noise_health_start` accepts, and while no call refuses, the context
-- tracks the samples pushed: its counters are those of the history.
pub session-Tracks :
    (rct apt : ℕ) (h : List ℕ) {c : Health}
    → rct < 2 ^ 16
    → Bits h
    → session rct apt h ≡ some c
    → Tracks rct apt h c
unfolding session
session-Tracks rct apt [] {c} r b e =
    let begun = start-IsLive rct apt {c = c} r e in
    record {
      live = begun.0;
      cutoffs = unfold start in ground arith;
      run_is = begun.1;
      last_is = begun.3;
      window_is = begun.2;
      matches_is = unfold start in ground arith;
      reference_is = inl begun.2;
    }
session-Tracks rct apt (x ∷ h) {c} r b e =
    extend rct apt x h (session rct apt h) (λ d f. session-Tracks rct apt h r b.1 f) b.0 e

-- After any history of bits that passed, the next bit is answered by the verdict on the history
-- with it: never `invalid_state`, a repetition failure exactly when the newest run reaches its
-- cutoff, and a proportion failure exactly when it does not and the open window's share does.
pub session-verdict :
    (rct apt x : ℕ) (h : List ℕ) {c : Health}
    → rct < 2 ^ 16
    → Bits (x ∷ h)
    → session rct apt h ≡ some c
    → (push c x).0 ≡ verdict rct apt (x ∷ h)
session-verdict rct apt x h {c} r b e =
    push-verdict rct apt x h c (session-Tracks rct apt h r b.1 e) b.0

judge_failed :
    (c : Health)
    → ((judge c).0 ≢ ok)
    → (((judge c).0 ≡ rct_failure) × ((judge c).1.state ≡ rct_failed))
      ⊎ (((judge c).0 ≡ apt_failure) × ((judge c).1.state ≡ apt_failed))
unfolding judge
judge_failed c e = ground arith

-- A failed test stays failed: the context is left alone and every later bit gets the same answer.
pub push_failed :
    (c : Health) (x y : ℕ)
    → x ≤ 1
    → y ≤ 1
    → ((push c x).0 ≡ rct_failure) ⊎ ((push c x).0 ≡ apt_failure)
    → push (push c x).1 y ≡ push c x
unfolding push
push_failed c x y hx hy e =
    ground (arith, judge_failed (advance_window (count_match x (count_run x c))))
