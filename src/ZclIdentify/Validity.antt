-- ===== src/ZclIdentify/Validity.antt =====
-- What zcl_id_rx of src/zcl_identify.c keeps of the context.
use cc2530_zigbee.Base.{
  ℕ, ◌^◌, ◌<◌, ◌≡◌, ◌⊎◌, inl, inr, refl, subst, Bool, true, false, ◌&&◌, ◌||◌, ltb, ◌==◌, ◌!=◌,
  Bool-cases, Option, none, some, List, get_or, drop, bit_and, or_le16, arith, Source, bytes, null,
  source_bytes,
}
use cc2530_zigbee.ZclFrame
use cc2530_zigbee.ZclFrame.{Result, ok, FrameInfo}
use cc2530_zigbee.ZclWrite.{Edit, Output}
use cc2530_zigbee.ZclWrite.Written.{Valued, handle-Valued, or_le16-IsWord}
use cc2530_zigbee.ZclDispatch.{Answer, is_write}
use cc2530_zigbee.ZclIdentify.{Identify, advance, tick, committed}
use cc2530_zigbee.ZclIdentify.Countdown.{IsIdentify, tick-IsIdentify}
use cc2530_zigbee.ZclIdentify.Receive.{
  attributes_of, time_edit, edited, time_written, global, identify, serve, serve_decoded, commit,
  rx_advanced, rx,
}

edited-IsIdentify :
    (next : Identify) (e : Option Edit) → IsIdentify next → Valued e → IsIdentify (edited next e)
unfolding edited
edited-IsIdentify next none w v = w
edited-IsIdentify next (some e) w v = elim (Bool-cases (e.written != 0)) [
  | inl t ↦ rw t (record { stamp = w.stamp; remaining = v; phase = omega arith; idle = λ q. refl })
  | inr t ↦ rw t w
]

time_written-IsIdentify :
    (next : Identify) (r : Result × Option Output)
    → IsIdentify next
    → ((o : Output) → r ≡ (ok, some o) → Valued o.edit)
    → IsIdentify (time_written next r).1
unfolding time_written
time_written-IsIdentify next (ok, some o) w v = edited-IsIdentify next o.edit w (v o refl)
time_written-IsIdentify next (ok, none) w v = w
time_written-IsIdentify next (_, o) w v = w

global-IsIdentify :
    (next : Identify) (request : List ℕ) (frame : FrameInfo) (capacity : ℕ)
    → IsIdentify next
    → IsIdentify (global next request frame capacity).1
unfolding global
global-IsIdentify next request frame capacity w =
    elim (Bool-cases (
      frame.header.type == 0
      && bit_and frame.header.flags 0x04 == 0
      && is_write frame.header.command_id)) [
        | inl t ↦ rw t (
            time_written-IsIdentify next _ w (λ o e.
              handle-Valued (attributes_of next) frame (drop frame.payload_offset request) capacity
                (some time_edit) o (omega arith) e))
        | inr t ↦ rw t w
      ]

identify-IsIdentify :
    (next : Identify) (input : List ℕ) (frame : FrameInfo) (capacity : ℕ)
    → IsIdentify next
    → IsIdentify (identify next input frame capacity).1
unfolding identify
identify-IsIdentify next input frame capacity w = elim (Bool-cases (ltb frame.payload_length 2)) [
  | inl t ↦ rw t w
  | inr t ↦ rw t (elim (Bool-cases (bit_and frame.header.flags 0x10 != 0)) [
    | inl u ↦ rw u started
    | inr u ↦ rw u started
  ])
]
  where
    started :
        IsIdentify
          (record next { remaining = or_le16 (get_or input 0 0) (get_or input 1 0); phase = 0 })
    started = record {
      stamp = w.stamp;
      remaining = or_le16-IsWord (get_or input 0 0) (get_or input 1 0);
      phase = omega arith;
      idle = λ q. refl;
    }

serve-IsIdentify :
    (next : Identify) (request : List ℕ) (frame : FrameInfo) (capacity : ℕ)
    → IsIdentify next
    → IsIdentify (serve next request frame capacity).1
unfolding serve
serve-IsIdentify next request frame capacity w =
    elim (Bool-cases (bit_and frame.header.flags 0x08 != 0)) [
      | inl t ↦ rw t w
      | inr t ↦
          rw t
            (elim (Bool-cases (
              frame.header.type != 1
              || bit_and frame.header.flags 0x04 != 0
              || ltb 1 frame.header.command_id)) [
                | inl u ↦ rw u (global-IsIdentify next request frame capacity w)
                | inr u ↦ rw u (elim (Bool-cases (frame.header.command_id == 0)) [
                  | inl v ↦ rw v (
                      identify-IsIdentify next (drop frame.payload_offset request) frame capacity w)
                  | inr v ↦ rw v w
                ])
              ])
    ]

serve_decoded-IsIdentify :
    (next : Identify) (request : List ℕ) (capacity : ℕ) (r : Result × Option FrameInfo)
    → IsIdentify next
    → IsIdentify (serve_decoded next request capacity r).1
unfolding serve_decoded
serve_decoded-IsIdentify next request capacity (ok, some frame) w =
    serve-IsIdentify next request frame capacity w
serve_decoded-IsIdentify next request capacity (ok, none) w = w
serve_decoded-IsIdentify next request capacity (_, o) w = w

advance-IsIdentify :
    (c : Identify) (now : ℕ) (next : Identify)
    → IsIdentify c
    → now < 2 ^ 32
    → advance c now ≡ (ok, some next)
    → IsIdentify next
unfolding tick
advance-IsIdentify c now next w h e =
    let ticked = tick-IsIdentify c now w h in
    let q : committed c (advance c now).1 ≡ next = rw e refl in subst IsIdentify q ticked

-- The context that is left is one that the calls make, and it has not changed on a failure.
record Kept (c : Identify) (z : Answer × Identify) : Type 0 where
  valid : IsIdentify z.1
  changed : (z.0.0 ≡ ok) ⊎ (z.1 ≡ c)

commit-Kept :
    (c : Identify) (z : Answer × Identify) → IsIdentify c → IsIdentify z.1 → Kept c (commit c z)
unfolding commit
commit-Kept c ((ok, o), next) w v = record { valid = v; changed = inl refl }
commit-Kept c ((_, o), next) w v = record { valid = w; changed = inr refl }

rx_advanced-Kept :
    (c : Identify) (request : Source) (capacity : ℕ) (s : Result × Option Identify)
    → IsIdentify c
    → ((next : Identify) → s ≡ (ok, some next) → IsIdentify next)
    → Kept c (rx_advanced c request capacity s)
unfolding rx_advanced
rx_advanced-Kept c request capacity (ok, some next) w v = commit-Kept c _ w (
    serve_decoded-IsIdentify next (source_bytes request) capacity (ZclFrame.decode request true)
      (v next refl))
rx_advanced-Kept c request capacity (ok, none) w v = record { valid = w; changed = inr refl }
rx_advanced-Kept c request capacity (_, o) w v = record { valid = w; changed = inr refl }

rx-Kept :
    (c : Identify) (now : ℕ) (request : Source) (outputs : Bool) (capacity : ℕ)
    → IsIdentify c
    → now < 2 ^ 32
    → Kept c (rx c now request outputs capacity)
unfolding rx
rx-Kept c now (null n) outputs capacity w h = record { valid = w; changed = inr refl }
rx-Kept c now (bytes request) false capacity w h = record { valid = w; changed = inr refl }
rx-Kept c now (bytes request) true capacity w h =
    rx_advanced-Kept c (bytes request) capacity (advance c now) w
      (λ next e. advance-IsIdentify c now next w h e)

-- Whatever is received, and at whatever time, `zcl_id_rx` leaves a context that the countdown
-- accepts: fields in range, and a phase below a second, which is 0 when nothing remains. When it
-- does not answer ok, it leaves the context as it was.
pub rx-IsIdentify :
    (c : Identify) (now : ℕ) (request : Source) (outputs : Bool) (capacity : ℕ)
    → IsIdentify c
    → now < 2 ^ 32
    → IsIdentify (rx c now request outputs capacity).1
      × (((rx c now request outputs capacity).0.0 ≡ ok)
          ⊎ ((rx c now request outputs capacity).1 ≡ c))
rx-IsIdentify c now request outputs capacity w h =
    let k = rx-Kept c now request outputs capacity w h in (k.valid, k.changed)
