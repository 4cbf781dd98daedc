-- ===== src/ZclWrite.antt =====
-- src/zcl_write.c: the three Write Attributes commands, with one writable attribute.
pub mod Room
pub mod Fuel
pub mod Written
pub mod Undivided
mod Tests
use cc2530_zigbee.Base.{
  ℕ, zero, suc, ◌+◌, ◌-◌, ◌*◌, ◌/◌, ◌^◌, ◌⊎◌, inl, inr, bit_and, bit_or, bit_xor, Bool, true, false,
  ◌&&◌, ◌||◌, not, ltb, leb, ◌==◌, ◌!=◌, if◌then◌else◌, Option, none, some, List, [], ◌∷◌, ◌++◌,
  length, get_or, take, drop, u8, or_le16, Source, bytes, null, source_bytes,
}
use cc2530_zigbee.ZclFrame
use cc2530_zigbee.ZclFrame.{Result, ok, truncated, invalid_value, invalid_table, Header, FrameInfo}
use cc2530_zigbee.ZclValue
use cc2530_zigbee.ZclValue.{ValueInfo}
use cc2530_zigbee.ZclAttributes.{Attribute, find, reply_header}

-- `zcl_wr_t`
pub record Edit : Type 0 where
  pub id : ℕ
  pub value : ℕ
  pub written : ℕ

-- `last`, `wrote`, `body[0..used)`, `count` and `errors` of the loop.
pub record Progress : Type 0 where
  pub last : ℕ
  pub wrote : ℕ
  pub body : List ℕ
  pub count : ℕ
  pub errors : ℕ

abbrev pub begun : Progress
begun = record { last = 0; wrote = 0; body = []; count = 0; errors = 0 }

-- `edit != NULL && edit->id == id`
abbrev pub editable : Option Edit → ℕ → Bool
editable none id = false
editable (some e) id = e.id == id

-- A record with an error, or one that is accepted.
abbrev pub refuse : ℕ → ℕ → Progress → Progress
refuse error id p = record p {
  body = p.body ++ (error ∷ u8 id ∷ u8 (id / 2 ^ 8) ∷ []);
  errors = u8 (p.errors + 1);
  count = u8 (p.count + 1);
}

abbrev pub accept : ℕ → Progress → Progress
accept value p = record p { last = value; wrote = 1; count = u8 (p.count + 1) }

-- The loop's tests after the value has been decoded; `data'` begins with the value. A Result is
-- returned at once.
unfoldable pub judge :
    Option Attribute → Option Edit → ℕ → ℕ → List ℕ → Progress → Result ⊎ Progress
judge none edit id type data' p = inr (refuse 0x86 id p)
judge (some a) edit id type data' p =
    if a.value.type != type
    then inr (refuse 0x8d id p)
    else if not (editable edit id)
    then inr (refuse 0x88 id p)
    else if type != 0x21
    then inl invalid_table
    else inr (accept (or_le16 (get_or data' 0 0) (get_or data' 1 0)) p)

-- `rc` and the length of the value, with the exception for the contents of a Boolean.
abbrev pub extent : ℕ → Result × Option ValueInfo → Result × ℕ
extent type (ok, some v) = (ok, v.encoded_length)
extent type (invalid_value, v) = if type == 0x10 then (ok, 1) else (invalid_value, 0)
extent type (r, v) = (r, 0)

-- The loop over the payload: a Result that is returned at once, or `rc` at the end with the
-- progress. Each record takes at least three octets, so that `fuel` from the length on is enough.
unfoldable pub scan :
    ℕ → List Attribute → Option Edit → List ℕ → Progress → Result ⊎ (Result × Progress)
scan zero entries edit payload p = inr (truncated, p)
scan (suc fuel) entries edit [] p = inr (ok, p)
scan (suc fuel) entries edit (low ∷ high ∷ type ∷ rest) p =
    elim (extent type (ZclValue.decode type (bytes rest) true)).0 [
      | ok ↦ elim (judge (find (or_le16 low high) entries) edit (or_le16 low high) type rest p) [
        | inl r ↦ inl r
        | inr q ↦
            scan fuel entries edit
              (drop (extent type (ZclValue.decode type (bytes rest) true)).1 rest) q
      ]
      | r ↦ inr (r, p)
    ]
scan (suc fuel) entries edit _ p = inr (truncated, p)

-- The loop, whose `rc` is ZCL_CODEC_TRUNCATED if it never runs.
unfoldable pub scan_all : List Attribute → Option Edit → List ℕ → Result ⊎ (Result × Progress)
scan_all entries edit [] = inr (truncated, begun)
scan_all entries edit (x ∷ payload) =
    scan (suc (length (x ∷ payload))) entries edit (x ∷ payload) begun

-- The fields of `zcl_dispatch_info_t` that a write sets.
pub record WriteInfo : Type 0 where
  pub kind : ℕ
  pub length : ℕ
  pub command_id : ℕ
  pub sequence : ℕ
  pub requested_count : ℕ
  pub returned_count : ℕ
  pub default_command : ℕ
  pub default_status : ℕ

-- What a successful call stores: the response, if there is one, the info and the edit.
pub record Output : Type 0 where
  pub response : Option (List ℕ)
  pub info : WriteInfo
  pub edit : Option Edit

-- `edit->written` and `edit->value`
abbrev pub publish : ℕ → ℕ → Option Edit → Option Edit
publish wrote last none = none
publish wrote last (some e) =
    some (record e { written = wrote; value = if wrote != 0 then last else e.value })

-- A response that was encoded.
unfoldable pub answered :
    WriteInfo → ℕ → ℕ → Option Edit → Result × Option (List ℕ) → Result × Option Output
answered info wrote last edit (ok, some response) = (
  ok,
  some (record {
    response = some response;
    info = record info { length = length response };
    edit = publish wrote last edit;
  }),
)
answered info wrote last edit (r, out) = (r, none)

-- The reply to a command that was not carried out, since a field is missing.
unfoldable pub malformed : FrameInfo → Option Edit → ℕ → Progress → Result × Option Output
malformed frame edit capacity p =
    answered
      (record {
        kind = 0;
        length = 0;
        command_id = 0x0b;
        sequence = frame.header.sequence;
        requested_count = 0;
        returned_count = 0;
        default_command = frame.header.command_id;
        default_status = 0x80;
      })
      0 p.last edit
      (ZclFrame.encode true (reply_header frame.header 0x0b)
        (bytes (frame.header.command_id ∷ 0x80 ∷ [])) capacity)

-- The reply to a command whose records were all read.
unfoldable pub carried_out : FrameInfo → Option Edit → ℕ → Progress → Result × Option Output
carried_out frame edit capacity p =
    answered
      (record {
        kind = 0;
        length = 0;
        command_id = 4;
        sequence = frame.header.sequence;
        requested_count = p.count;
        returned_count = if length p.body == 0 then 1 else p.errors;
        default_command = 0;
        default_status = 0;
      })
      (if length p.body != 0 && frame.header.command_id == 3 then 0 else p.wrote) p.last edit
      (ZclFrame.encode true (reply_header frame.header 4)
        (bytes (if length p.body == 0 then 0 ∷ [] else p.body)) capacity)

-- No Response: the edit is the only effect.
abbrev pub silent : FrameInfo → Option Edit → Progress → Result × Option Output
silent frame edit p = (
  ok,
  some (record {
    response = none;
    info = record {
      kind = 2;
      length = 0;
      command_id = 0;
      sequence = frame.header.sequence;
      requested_count = 0;
      returned_count = 0;
      default_command = 0;
      default_status = 0;
    };
    edit = publish p.wrote p.last edit;
  }),
)

-- `zcl_wr_handle` after its loop
unfoldable pub conclude :
    FrameInfo → Option Edit → ℕ → Result ⊎ (Result × Progress) → Result × Option Output
conclude frame edit capacity (inl r) = (r, none)
conclude frame edit capacity (inr (ok, p)) =
    if frame.header.command_id == 5 then silent frame edit p else carried_out frame edit capacity p
conclude frame edit capacity (inr (truncated, p)) =
    if frame.header.command_id == 5 then (truncated, none) else malformed frame edit capacity p
conclude frame edit capacity (inr (r, p)) = (r, none)

-- `zcl_wr_handle` on the entries of the set and the payload of the frame
unfoldable pub handle :
    List Attribute → FrameInfo → List ℕ → ℕ → Option Edit → Result × Option Output
handle entries frame payload capacity edit =
    conclude frame edit capacity (scan_all entries edit (take frame.payload_length payload))
