-- ===== src/NwkFrame/Shape.antt =====
-- Which headers the NWK codec accepts, and the bits of its frame control.
use cc2530_zigbee.Base.{
  ℕ, ◌/◌, ◌%◌, ◌^◌, ◌≤◌, ◌<◌, ◌≡◌, ◌≢◌, ◌↔◌, ◌⊎◌, mask_0x0200, mask_0x0500, mask_0x0800,
  mask_0xc7ff, arith,
}
use cc2530_zigbee.NwkFrame.{Header, ok, header_shape}

-- The flags of a frame control that the codec knows: END_DEVICE_INITIATOR, SOURCE_IEEE and
-- DESTINATION_IEEE, bits 13, 12 and 11.
abbrev pub Known : ℕ → Type 0
Known flags = (flags < 2 ^ 14) × (flags % 2 ^ 11 ≡ 0)

-- A unicast destination, or one of the four broadcast addresses of R22 reached without route
-- discovery and without an IEEE address.
abbrev pub Reachable : Header → Type 0
Reachable h =
    (h.destination < 0xfff8)
    ⊎ ((0xfffb ≤ h.destination)
        × (h.destination ≢ 0xfffe)
        × (h.discover_route ≡ 0)
        × (h.flags / 2 ^ 11 % 2 ≡ 0))

-- The headers that `header_shape` accepts.
pub header_shape_iff :
    (h : Header)
    → h.flags < 2 ^ 16
    → (header_shape h ≡ ok) ↔ (
        (h.type ≡ 0)
        × (h.version ≡ 2)
        × Known h.flags
        × (h.discover_route ≤ 1)
        × (h.source < 0xfff8)
        × Reachable h)
unfolding header_shape
header_shape_iff h b = ground (
  arith,
  mask_0x0200 h.flags b,
  mask_0x0500 h.flags b,
  mask_0xc7ff h.flags b,
  mask_0x0800 h.flags b,
)
