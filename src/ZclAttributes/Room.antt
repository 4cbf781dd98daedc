-- ===== src/ZclAttributes/Room.antt =====
-- The records of a response stay within its room.
use cc2530_zigbee.Base.{
  refl, u8, false, ℕ, ◌+◌, ◌-◌, ◌≤◌, ◌≡◌, inl, inr, true, some, List, [], ◌∷◌, ◌++◌, length, sub8,
  or_le16, arith, length-append, Option, none, ltb, leb, if◌then◌else◌,
}
use cc2530_zigbee.ZclFrame.{Result, ok}
use cc2530_zigbee.ZclValue
use cc2530_zigbee.ZclValue.{Value}
use cc2530_zigbee.ZclAttributes.{Attribute, find, one_record, value_record, read_records}

-- A value is encoded within its capacity.
length-encode :
    (v : Value) (capacity : ℕ) (b : List ℕ)
    → ZclValue.encode true v capacity ≡ (ok, some b)
    → length b ≤ capacity
unfolding ZclValue.encode ZclValue.encode_string ZclValue.encode_fixed
length-encode v capacity b e = ground arith

-- One record takes no more than what remains.
length-value_record :
    (remaining id : ℕ) (v : Value) (r : List ℕ)
    → 3 ≤ remaining
    → value_record remaining id v.type
        (ZclValue.encode true v (if leb 4 remaining then remaining - 4 else 0))
      ≡ inr r
    → length r ≤ remaining
length-value_record remaining id v r h e =
    fits (ZclValue.encode true v (if leb 4 remaining then remaining - 4 else 0))
      (length-encode v (if leb 4 remaining then remaining - 4 else 0)) e
  where
    fits :
        (p : Result × Option (List ℕ))
        → ((b : List ℕ)
            → p ≡ (ok, some b)
            → length b ≤ (if leb 4 remaining then remaining - 4 else 0))
        → value_record remaining id v.type p ≡ inr r
        → length r ≤ remaining
    fits (ok, some b) bound f = unfold value_record in ground (arith, bound b refl)
    fits (s, b) bound f = unfold value_record in ground arith

length-one_record :
    (remaining id : ℕ) (o : Option Attribute) (r : List ℕ)
    → 3 ≤ remaining
    → one_record remaining id o ≡ inr r
    → length r ≤ remaining
unfolding one_record
length-one_record remaining id none r h e = ground arith
length-one_record remaining id (some a) r h e =
    ground (arith, length-value_record remaining id a.value r)

-- The loop never writes more than the room that the budget leaves, in any table and for any ids,
-- so that the byte which counts what remains does not wrap.
pub read_records_room :
    (entries : List Attribute) (room : ℕ) (ids payload : List ℕ) (count : ℕ)
    → room ≤ 100
    → length payload ≤ room
    → length (read_records entries room ids payload count).1 ≤ room
unfolding read_records
read_records_room entries room [] payload count small h = h
read_records_room entries room (low ∷ []) payload count small h = h
read_records_room entries room (low ∷ high ∷ ids) payload count small h =
    elim (ltb left 3)
        as (λ t.
          ltb left 3 ≡ t
          → length
              (elim t as (λ x. Result × List ℕ × ℕ) [
                | true ↦ (ok, payload, count)
                | false ↦ elim (one_record left id here) as (λ x. Result × List ℕ × ℕ) [
                  | inl r ↦ (r, payload, count)
                  | inr bytes' ↦ read_records entries room ids (payload ++ bytes') (u8 (count + 1))
                ]
              ]).1
            ≤ room) [
              | true ↦ λ e. h
              | false ↦ λ e.
                  elim (one_record left id here)
                      as (λ o.
                        one_record left id here ≡ o
                        → length
                            (elim o as (λ x. Result × List ℕ × ℕ) [
                              | inl r ↦ (r, payload, count)
                              | inr bytes' ↦
                                  read_records entries room ids (payload ++ bytes') (u8 (count + 1))
                            ]).1
                          ≤ room) [
                            | inl r ↦ λ f. h
                            | inr bytes' ↦ λ f.
                                read_records_room entries room ids (payload ++ bytes')
                                  (u8 (count + 1)) small (joined bytes' e f)
                          ]
                    refl
            ]
      refl
  where
    left : ℕ
    left = sub8 room (length payload)

    id : ℕ
    id = or_le16 low high

    here : Option Attribute
    here = find id entries

    joined :
        (record' : List ℕ)
        → ltb left 3 ≡ false
        → one_record left id here ≡ inr record'
        → length (payload ++ record') ≤ room
    joined record' e f =
        let enough : 3 ≤ left = ground arith in
        omega
          (arith, length-append payload record', length-one_record left id here record' enough f)
