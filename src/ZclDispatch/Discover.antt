-- ===== src/ZclDispatch/Discover.antt =====
-- src/zcl_dispatch.c: next_attribute and discover, the Discover Attributes command.
use cc2530_zigbee.Base.{
  ℕ, zero, suc, ◌+◌, ◌-◌, ◌/◌, ◌^◌, ◌⊎◌, inl, inr, Bool, true, ◌&&◌, ◌||◌, not, ltb, leb, ◌==◌,
  ◌!=◌, if◌then◌else◌, Option, none, some, List, [], ◌∷◌, ◌++◌, get_or, u8, u16, or_le16,
}
use cc2530_zigbee.ZclFrame.{Result, buffer_too_small, unsupported_data_type, size_of}
use cc2530_zigbee.ZclValue.{supported}
use cc2530_zigbee.ZclAttributes.{Attribute, budget_of}

-- `chosen == NULL || current->id < chosen->id`
abbrev pub nearer : Attribute → Option Attribute → Bool
nearer a none = true
nearer a (some c) = ltb a.id c.id

-- The loop of `next_attribute` over the entries left.
unfoldable pub next_from : ℕ → Option Attribute → List Attribute → Option Attribute
next_from start chosen [] = chosen
next_from start chosen (a ∷ rest) =
    next_from start (if leb start a.id && nearer a chosen then some a else chosen) rest

-- `next_attribute`
unfoldable pub next_attribute : List Attribute → ℕ → Option Attribute
next_attribute entries start = next_from start none entries

-- What the loop of `discover` leaves: `payload[0]`, the attributes listed and `count`.
pub record Listing : Type 0 where
  pub complete : ℕ
  pub listed : List Attribute
  pub count : ℕ

-- The loop, for the attributes listed so far. Each round takes three octets of the budget, so that
-- a third of it, and one, is fuel enough.
unfoldable pub discover_from :
    ℕ → List Attribute → ℕ → ℕ → ℕ → ℕ → List Attribute → Option (Result ⊎ Listing)
discover_from zero entries limit start budget count listed = none
discover_from (suc fuel) entries limit start budget count listed =
    elim (next_attribute entries start) [
      | none ↦ some (inr (record { complete = 1; listed = listed; count = count }))
      | some a ↦
          let further =
            discover_from fuel entries limit (u16 (a.id + 1)) (budget - 3) (u8 (count + 1))
              (listed ++ a ∷ []) in
          if count == limit || ltb budget 3
          then (if count == 0 && limit != 0
              then some (inl buffer_too_small)
              else some (inr (record { complete = 0; listed = listed; count = count })))
          else if not (supported a.value.type)
          then some (inl unsupported_data_type)
          else if a.id == 0xffff
          then some
              (inr (record { complete = 1; listed = listed ++ a ∷ []; count = u8 (count + 1) }))
          else further
    ]

-- The records of the listed attributes.
unfoldable pub records_of : List Attribute → List ℕ
records_of [] = []
records_of (a ∷ rest) = u8 a.id ∷ u8 (a.id / 2 ^ 8) ∷ a.value.type ∷ records_of rest

-- `header_size`, by the flags of the reply, and `budget` behind it.
abbrev pub room_of : ℕ → ℕ → ℕ
room_of flags capacity = budget_of capacity - (size_of flags + 1)

-- The loop as `discover` starts it.
unfoldable pub discover_all : List Attribute → List ℕ → ℕ → ℕ → Option (Result ⊎ Listing)
discover_all entries request flags capacity =
    let budget = room_of flags capacity in
    discover_from (suc (budget / 3)) entries (get_or request 2 0)
      (or_le16 (get_or request 0 0) (get_or request 1 0)) budget 0 []
