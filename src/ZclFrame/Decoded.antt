-- ===== src/ZclFrame/Decoded.antt =====
-- The headers that zcl_frame_decode of src/zcl_frame.c reads.
use cc2530_zigbee.Base.{
  ℕ, ◌^◌, ◌<◌, ◌≡◌, bit_and, true, some, List, get_or, or_le16, bytes, IsBytes, mask_0x1c,
  mask_0x04, arith,
}
use cc2530_zigbee.ZclFrame.{ok, FrameInfo, read_header, decode}
use cc2530_zigbee.ZclFrame.RoundTrip.{Fits, decode_ok_iff, get_or-IsByte}

or_le16-lt : (lo hi : ℕ) → or_le16 lo hi < 2 ^ 16
unfolding or_le16
or_le16-lt lo hi = omega arith

read_header-Fits : (b : List ℕ) → IsBytes b → Fits (read_header b)
unfolding read_header
read_header-Fits b h =
    let first = get_or-IsByte b h in
    let low : bit_and (get_or b 0 0) 0x1c < 2 ^ 8 = omega (arith, mask_0x1c (get_or b 0 0) first) in
    record {
      flags = ground arith;
      manufacturer_code = ground (arith, or_le16-lt (get_or b 1 0) (get_or b 2 0));
      unsent = ground (arith, mask_0x04 (bit_and (get_or b 0 0) 0x1c) low);
    }

pub decoded-Fits :
    (b : List ℕ) (info : FrameInfo)
    → IsBytes b
    → decode (bytes b) true ≡ (ok, some info)
    → Fits info.header
decoded-Fits b info h e =
    let (_, _, _, _, _, is) = (decode_ok_iff b info).0 e in rw is (read_header-Fits b h)
