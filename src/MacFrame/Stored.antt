-- ===== src/MacFrame/Stored.antt =====
-- What mac_frame_encode of src/mac_frame.c has checked when it succeeds.
use cc2530_zigbee.Base.{
  ℕ, ◌+◌, ◌-◌, ◌≤◌, ◌≡◌, refl, ◌!=◌, ◌==◌, ◌&&◌, ltb, if◌then◌else◌, Option, some, none, List,
  length, u8, arith,
}
use cc2530_zigbee.MacFrame.{Result, ok, Header, Sizes, address_policy}
use cc2530_zigbee.MacFrame.Codec.{
  checked, command_status, beacon_status, emit_frame, store, encode_shaped,
}

-- What `mac_frame_encode` has checked, and what it stores.
pub record Stored (h : Header) (p : List ℕ) (z : Sizes) (b : List ℕ) (n : ℕ) : Type 0 where
  pub addressed : address_policy h ≡ ok
  pub empty_ack : h.type ≡ 2 → length p ≡ 0
  pub room : length p ≤ 125 - z.header
  pub command : command_status h p 1 ≡ ok
  pub beacon : beacon_status h p ≡ ok
  pub body : b ≡ emit_frame h p z
  pub count : n ≡ u8 (z.header + length p)

checked_ok {ℓ} :
    {A : Type ℓ} (s : Result) (rest : Result × Option A) (a : A)
    → checked s rest ≡ (ok, some a)
    → (s ≡ ok) × (rest ≡ (ok, some a))
checked_ok ok rest a h = (refl, h)
checked_ok Result.invalid_argument rest a h = absurd (cc)
checked_ok _ rest a h = absurd (cc)

store-Stored :
    (h : Header) (p : List ℕ) (capacity : ℕ) (z : Sizes) (b : List ℕ) (n : ℕ)
    → store h p capacity z ≡ (ok, some (b, n))
    → Stored h p z b n
unfolding store
store-Stored h p capacity z b n e =
    let (addressed, e1) = checked_ok (address_policy h) r1 (b, n) e in
    let (empty, room, e2) = guards e1 in
    let (command, e3) = checked_ok (command_status h p 1) r3 (b, n) e2 in
    let (beacon, e4) = checked_ok (beacon_status h p) r4 (b, n) e3 in
    record {
      addressed = addressed;
      empty_ack = empty;
      room = room;
      command = command;
      beacon = beacon;
      body = ground arith;
      count = ground arith;
    }
  where
    Answer : Type 0
    Answer = Result × Option (List ℕ × ℕ)

    r4 : Answer
    r4 =
        if ltb capacity (z.header + length p)
        then (Result.buffer_too_small, none)
        else (ok, some (emit_frame h p z, u8 (z.header + length p)))

    r3 : Answer
    r3 = checked (beacon_status h p) r4

    r2 : Answer
    r2 = checked (command_status h p 1) r3

    r1 : Answer
    r1 =
        if h.type == 2 && length p != 0
        then (Result.invalid_header, none)
        else if ltb (125 - z.header) (length p)
        then (Result.too_long, none)
        else r2

    guards :
        r1 ≡ (ok, some (b, n))
        → (h.type ≡ 2 → length p ≡ 0) × (length p ≤ 125 - z.header) × (r2 ≡ (ok, some (b, n)))
    guards e1 = ground arith

pub encode_shaped-Stored :
    (h : Header) (p : List ℕ) (capacity : ℕ) (s : Result × Option Sizes) (b : List ℕ) (n : ℕ)
    → encode_shaped h p capacity s ≡ (ok, some (b, n))
    → (z : Sizes) × ((s ≡ (ok, some z)) × Stored h p z b n)
unfolding encode_shaped
encode_shaped-Stored h p capacity (ok, some z) b n e =
    (z, (refl, store-Stored h p capacity z b n e))
encode_shaped-Stored h p capacity (ok, none) b n e = absurd (cc)
encode_shaped-Stored h p capacity (_, o) b n e = absurd (cc)
