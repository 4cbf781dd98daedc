-- ===== src/MacFrame/Commands.antt =====
-- The two directions of mac_command_decode and mac_command_encode.
use cc2530_zigbee.Base.{
  ℕ, ◌/◌, ◌^◌, ◌<◌, ◌≡◌, ◌≢◌, ◌↔◌, true, some, List, [], ◌∷◌, length, u8, bytes, IsBytes,
  or_le16-eq-add, arith,
}
use cc2530_zigbee.MacFrame.{ok}
use cc2530_zigbee.MacFrame.Command.{
  Command, command_size, command_policy, read_command, decode_command, emit_command, encode_command,
}

-- The address fits its C type, and the fields that the identifier leaves out are zero.
pub record FitsCommand (c : Command) : Type 0 where
  pub short_address : c.short_address < 2 ^ 16
  pub no_capability : c.identifier ≢ 1 → c.capability ≡ 0
  pub no_address : c.identifier ≢ 2 → (c.short_address ≡ 0) × (c.status ≡ 0)
  pub no_reason : c.identifier ≢ 3 → c.reason ≡ 0

-- What `mac_command_encode` stores is decoded to the command, and the stored length is the number
-- of bytes.
decode-encode_command :
    (c : Command) (capacity : ℕ) {b : List ℕ} {n : ℕ}
    → FitsCommand c
    → encode_command true c capacity ≡ (ok, some (b, n))
    → (decode_command (bytes b) true ≡ (ok, some c)) × (length b ≡ n)
unfolding encode_command decode_command emit_command read_command command_policy command_size
decode-encode_command c capacity {b} {n} f e = ground (
  arith,
  f.no_capability,
  f.no_address,
  f.no_reason,
  or_le16-eq-add (u8 c.short_address) (u8 (c.short_address / 2 ^ 8)),
)

-- A command that is decoded from bytes is encoded to the same bytes.
encode-decode_command :
    (b : List ℕ) (c : Command)
    → IsBytes b
    → decode_command (bytes b) true ≡ (ok, some c)
    → encode_command true c 4 ≡ (ok, some (b, length b))
unfolding encode_command decode_command emit_command read_command command_policy command_size
encode-decode_command [] c h e = absurd (cc)
encode-decode_command (x ∷ []) c h e = ground arith
encode-decode_command (x ∷ y ∷ []) c h e = ground arith
encode-decode_command (x ∷ y ∷ z ∷ []) c h e = ground arith
encode-decode_command (x ∷ y ∷ z ∷ w ∷ []) c h e = ground (arith, or_le16-eq-add y z)
encode-decode_command (x ∷ y ∷ z ∷ w ∷ v ∷ b) c h e = ground arith

-- Between commands whose fields fit and bytes, `mac_command_encode` and `mac_command_decode` are
-- inverse: four bytes of room suffice for a command to be encoded to just those bytes that are
-- decoded to it, with their number as the length.
pub encode_command_iff :
    (c : Command) (b : List ℕ)
    → FitsCommand c
    → IsBytes b
    → (encode_command true c 4 ≡ (ok, some (b, length b)))
      ↔ (decode_command (bytes b) true ≡ (ok, some c))
encode_command_iff c b f h =
    (λ e. (decode-encode_command c 4 f e).0, λ e. encode-decode_command b c h e)
