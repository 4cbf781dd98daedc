-- ===== src/ZclWrite/Undivided.antt =====
-- Write Attributes Undivided of src/zcl_write.c: all records are written, or none.
use cc2530_zigbee.Base.{
  ℕ, zero, suc, ◌+◌, ◌≤◌, ◌≡◌, ◌≢◌, refl, subst, ◌⊎◌, inl, inr, true, false, ◌&&◌, ◌==◌, ◌!=◌,
  if◌then◌else◌, Bool-cases, Option, none, some, List, [], ◌∷◌, length, drop, take, get_or, bytes,
  or_le16, length-append, u8, ◌/◌, ◌^◌, arith,
}
use cc2530_zigbee.ZclFrame.{Result, ok, truncated, FrameInfo}
use cc2530_zigbee.ZclValue
use cc2530_zigbee.ZclAttributes.{Attribute, find}
use cc2530_zigbee.ZclWrite.{
  Edit, Progress, begun, judge, extent, scan, scan_all, Output, WriteInfo, answered, malformed,
  carried_out, conclude, handle, publish,
}

-- The payload is nothing but records that write a 16-bit value to the attribute `id`, the last of
-- which leaves `final` where `last` stood.
abbrev pub AllWrites : ℕ → List ℕ → ℕ → ℕ → Type 0
AllWrites id [] last final = last ≡ final
AllWrites id (low ∷ high ∷ type ∷ a ∷ b ∷ rest) last final =
    (or_le16 low high ≡ id) × (type ≡ 0x21) × AllWrites id rest (or_le16 a b) final
AllWrites id _ last final = last ≢ last

judge_grows :
    (o : Option Attribute) (e : Edit) (id type : ℕ) (data' : List ℕ) (p z : Progress)
    → judge o (some e) id type data' p ≡ inr z
    → (length p.body + 3 ≤ length z.body)
      ⊎ ((length z.body ≡ length p.body)
          × (id ≡ e.id)
          × (type ≡ 0x21)
          × (z.last ≡ or_le16 (get_or data' 0 0) (get_or data' 1 0)))
unfolding judge
judge_grows none e id type data' p z h =
    inl (ground (arith, length-append p.body (0x86 ∷ u8 id ∷ u8 (id / 2 ^ 8) ∷ [])))
judge_grows (some a) e id type data' p z h = elim (Bool-cases (a.value.type == type)) [
  | inr c ↦ inl (ground (arith, length-append p.body (0x8d ∷ u8 id ∷ u8 (id / 2 ^ 8) ∷ [])))
  | inl c ↦ elim (Bool-cases (e.id == id)) [
    | inr d ↦ inl (ground (arith, length-append p.body (0x88 ∷ u8 id ∷ u8 (id / 2 ^ 8) ∷ [])))
    | inl d ↦ inr (ground arith, ground arith, ground arith, ground arith)
  ]
]

-- The extent of a 16-bit value.
extent_word :
    (rest : List ℕ)
    → (extent 0x21 (ZclValue.decode 0x21 (bytes rest) true)).0 ≡ ok
    → (a : ℕ) × ((b : ℕ) × ((r : List ℕ) × ((rest ≡ a ∷ b ∷ r)
            × ((extent 0x21 (ZclValue.decode 0x21 (bytes rest) true)).1 ≡ 2))))
unfolding ZclValue.decode ZclValue.decode_fixed ZclValue.value_shape
extent_word [] h = absurd (cc)
extent_word (a ∷ []) h = absurd (cc)
extent_word (a ∷ b ∷ r) h = (a, (b, (r, (refl, ground arith))))

-- One turn of the loop that goes on to an end without errors.
turn_clean :
    (e : Edit) (p q : Progress) (rc : Result) (answer : Result ⊎ Progress)
    (later : Progress → Result ⊎ (Result × Progress))
    → (elim rc as (λ x. Result ⊎ (Result × Progress)) [
      | ok ↦ elim answer as (λ x. Result ⊎ (Result × Progress)) [ inl s ↦ inl s | inr z ↦ later z ]
      | s ↦ inr (s, p)
    ])
      ≡ inr (ok, q)
    → (z : Progress) × ((rc ≡ ok) × (answer ≡ inr z) × (later z ≡ inr (ok, q)))
turn_clean e p q ok (inl s) later h = absurd (cc)
turn_clean e p q ok (inr z) later h = (z, (refl, refl, h))
turn_clean e p q _ answer later h = absurd (cc)

scan_grows :
    (fuel : ℕ) (entries : List Attribute) (e : Edit) (payload : List ℕ) (p q : Progress)
    → scan fuel entries (some e) payload p ≡ inr (ok, q)
    → length p.body ≤ length q.body
unfolding scan
scan_grows zero entries e payload p q h = absurd (cc)
scan_grows (suc fuel) entries e [] p q h = ground arith
scan_grows (suc fuel) entries e (x ∷ []) p q h = absurd (cc)
scan_grows (suc fuel) entries e (x ∷ y ∷ []) p q h = absurd (cc)
scan_grows (suc fuel) entries e (low ∷ high ∷ type ∷ rest) p q h =
    let id = or_le16 low high in
    let width = (extent type (ZclValue.decode type (bytes rest) true)).1 in
    let (z, (_, judged, later)) =
      turn_clean e p q (extent type (ZclValue.decode type (bytes rest) true)).0
        (judge (find id entries) (some e) id type rest p)
        (λ z. scan fuel entries (some e) (drop width rest) z) h in
    let on = scan_grows fuel entries e (drop width rest) z q later in
    elim (judge_grows (find id entries) e id type rest p z judged) [
      | inl g ↦ omega (arith, on)
      | inr g ↦ omega (arith, on, g.0)
    ]

scan_clean :
    (fuel : ℕ) (entries : List Attribute) (e : Edit) (payload : List ℕ) (p q : Progress)
    → scan fuel entries (some e) payload p ≡ inr (ok, q)
    → length q.body ≡ 0
    → AllWrites e.id payload p.last q.last
unfolding scan
scan_clean zero entries e payload p q h c = absurd (cc)
scan_clean (suc fuel) entries e [] p q h c = ground arith
scan_clean (suc fuel) entries e (x ∷ []) p q h c = absurd (cc)
scan_clean (suc fuel) entries e (x ∷ y ∷ []) p q h c = absurd (cc)
scan_clean (suc fuel) entries e (low ∷ high ∷ type ∷ rest) p q h c =
    let id = or_le16 low high in
    let width = (extent type (ZclValue.decode type (bytes rest) true)).1 in
    let (z, (fine, judged, later)) =
      turn_clean e p q (extent type (ZclValue.decode type (bytes rest) true)).0
        (judge (find id entries) (some e) id type rest p)
        (λ z. scan fuel entries (some e) (drop width rest) z) h in
    let on = scan_grows fuel entries e (drop width rest) z q later in
    elim (judge_grows (find id entries) e id type rest p z judged) [
      | inl g ↦ absurd (omega (arith, on))
      | inr (_, named, typed, stored) ↦
          let fine' : (extent 0x21 (ZclValue.decode 0x21 (bytes rest) true)).0 ≡ ok =
            rw typed at fine in
          let (a, (b, (r, (split, two)))) = extent_word rest fine' in
          let width_two : width ≡ 2 = rw typed two in
          let tail : drop width rest ≡ r = rw (width_two, split) refl in
          let value : z.last ≡ or_le16 a b = rw split at stored in
          let inner = scan_clean fuel entries e (drop width rest) z q later c in
          rw split (named, typed, subst (λ v. AllWrites e.id r v q.last) value (rw tail at inner))
    ]

-- The edit after a write: as it was, or what the whole payload wrote.
abbrev pub AllOrNone : Edit → List ℕ → Option Edit → Type 0
AllOrNone e payload none = e ≢ e
AllOrNone e payload (some e') =
    ((e'.written ≡ 0) × (e'.value ≡ e.value))
    ⊎ ((e'.written ≢ 0) × AllWrites e.id payload 0 e'.value)

publish-AllOrNone :
    (e : Edit) (payload : List ℕ) (wrote last : ℕ)
    → (wrote ≢ 0 → AllWrites e.id payload 0 last)
    → AllOrNone e payload (publish wrote last (some e))
publish-AllOrNone e payload wrote last h = elim (Bool-cases (wrote != 0)) [
  | inl t ↦ let ne : wrote ≢ 0 = λ q. absurd (ground arith) in rw t (inr (ne, h ne))
  | inr t ↦ let z : wrote ≡ 0 = ground arith in rw t (inl (z, refl))
]

answered-AllOrNone :
    (e : Edit) (payload : List ℕ) (info : WriteInfo) (wrote last : ℕ) (s : Result × Option (List ℕ))
    (o : Output)
    → (wrote ≢ 0 → AllWrites e.id payload 0 last)
    → answered info wrote last (some e) s ≡ (ok, some o)
    → AllOrNone e payload o.edit
unfolding answered
answered-AllOrNone e payload info wrote last (ok, some response) o k h =
    let left : publish wrote last (some e) ≡ o.edit = cc in
    subst (AllOrNone e payload) left (publish-AllOrNone e payload wrote last k)
answered-AllOrNone e payload info wrote last (ok, none) o k h = absurd (cc)
answered-AllOrNone e payload info wrote last (_, s) o k h = absurd (cc)

-- The records are written only if none of them has an error.
written_clean :
    (e : Edit) (payload : List ℕ) (frame : FrameInfo) (p : Progress)
    → frame.header.command_id ≡ 3
    → (length p.body ≡ 0 → AllWrites e.id payload 0 p.last)
    → (if length p.body != 0 && frame.header.command_id == 3 then 0 else p.wrote) ≢ 0
    → AllWrites e.id payload 0 p.last
written_clean e payload frame p c k ne = elim (Bool-cases (length p.body != 0)) [
  | inl t ↦
      let undone : (if length p.body != 0 && frame.header.command_id == 3 then 0 else p.wrote) ≡ 0 =
        ground arith in
      absurd (ne undone)
  | inr t ↦ k (ground arith)
]

conclude-AllOrNone :
    (frame : FrameInfo) (e : Edit) (payload : List ℕ) (capacity : ℕ)
    (s : Result ⊎ (Result × Progress)) (o : Output)
    → frame.header.command_id ≡ 3
    → ((p : Progress) → s ≡ inr (ok, p) → length p.body ≡ 0 → AllWrites e.id payload 0 p.last)
    → conclude frame (some e) capacity s ≡ (ok, some o)
    → AllOrNone e payload o.edit
unfolding conclude carried_out malformed
conclude-AllOrNone frame e payload capacity (inl r) o c k h = absurd (cc)
conclude-AllOrNone frame e payload capacity (inr (ok, p)) o c k h =
    let other : (frame.header.command_id == 5) ≡ false = ground arith in
    answered-AllOrNone e payload _ _ p.last _ o
      (λ ne. written_clean e payload frame p c (k p refl) ne) (rw other at h)
conclude-AllOrNone frame e payload capacity (inr (truncated, p)) o c k h =
    let other : (frame.header.command_id == 5) ≡ false = ground arith in
    answered-AllOrNone e payload _ 0 p.last _ o (λ ne. absurd (ne refl)) (rw other at h)
conclude-AllOrNone frame e payload capacity (inr (_, p)) o c k h = absurd (cc)

scan_all-AllWrites :
    (entries : List Attribute) (e : Edit) (payload : List ℕ) (p : Progress)
    → scan_all entries (some e) payload ≡ inr (ok, p)
    → length p.body ≡ 0
    → AllWrites e.id payload 0 p.last
unfolding scan_all
scan_all-AllWrites entries e [] p h c = absurd (cc)
scan_all-AllWrites entries e (x ∷ payload) p h c =
    scan_clean (suc (length (x ∷ payload))) entries e (x ∷ payload) begun p h c

-- Write Attributes Undivided writes all or nothing: after a successful `zcl_wr_handle` of that
-- command, the edit holds the value that it had and is not marked as written, or the payload is
-- nothing but records that write a 16-bit value to the one writable attribute, and the edit holds
-- the last of them.
pub handle-AllOrNone :
    (entries : List Attribute) (frame : FrameInfo) (payload : List ℕ) (capacity : ℕ) (e : Edit)
    {o : Output}
    → frame.header.command_id ≡ 3
    → handle entries frame payload capacity (some e) ≡ (ok, some o)
    → AllOrNone e (take frame.payload_length payload) o.edit
unfolding handle
handle-AllOrNone entries frame payload capacity e {o} c h =
    let sent = take frame.payload_length payload in
    conclude-AllOrNone frame e sent capacity (scan_all entries (some e) sent) o c
      (λ p q z. scan_all-AllWrites entries e sent p q z) h
