-- ===== src/ZclDispatch/Listed.antt =====
-- The loop of discover in src/zcl_dispatch.c.
use cc2530_zigbee.Base.{
  ℕ, zero, suc, ◌+◌, ◌-◌, ◌*◌, ◌/◌, ◌≤◌, ◌<◌, ◌≡◌, ◌⊎◌, inl, inr, refl, sym, subst, ◌∙◌, true, ◌&&◌,
  ◌||◌, ltb, ◌==◌, ◌!=◌, if◌then◌else◌, Option, none, some, List, [], ◌∷◌, ◌++◌, length, get_or,
  or_le16, u8, u16, Bool-cases, append_assoc, append_nil, arith,
}
use cc2530_zigbee.ZclFrame.{Result, buffer_too_small, unsupported_data_type}
use cc2530_zigbee.ZclAttributes.{Attribute}
use cc2530_zigbee.ZclValue.{supported}
use cc2530_zigbee.ZclDispatch.Discover.{
  next_from, next_attribute, Listing, discover_from, discover_all, room_of,
}
use cc2530_zigbee.ZclDispatch.Ascending.{
  IsEntry, NoneBetween, AreWords, Next, next_from-Next, end_of, Outcome,
}

Option-cases : (o : Option Attribute) → (o ≡ none) ⊎ ((a : Attribute) × (o ≡ some a))
Option-cases none = inl refl
Option-cases (some a) = inr (a, refl)

NoneBetween-words : (start : ℕ) (es : List Attribute) → AreWords es → NoneBetween 0x10000 start es
NoneBetween-words start [] w = tt
NoneBetween-words start (e ∷ es) w = (inl w.0, NoneBetween-words start es w.1)

-- The loop's answer with what it means.
abbrev Answered :
    List Attribute → ℕ → ℕ → ℕ → ℕ → List Attribute → Option (Result ⊎ Listing) → Type 0
Answered entries limit start budget count listed r =
    (o : Result ⊎ Listing) × ((r ≡ some o) × Outcome entries limit start budget count listed o)

module _ (entries : List Attribute) (limit start budget count : ℕ) (listed : List Attribute)
    (small : 3 * count + budget ≤ 100) where
  stopped :
      (count == limit || ltb budget 3) ≡ true
      → Answered entries limit start budget count listed (
          if count == 0 && limit != 0
          then some (inl buffer_too_small)
          else some (inr (record { complete = 0; listed = listed; count = count })))
  stopped c = elim (Bool-cases (count == 0 && limit != 0)) [
    | inl t ↦
        rw t (inl buffer_too_small, (refl, inl (refl, ground arith, ground arith, ground arith)))
    | inr t ↦ rw t (
      inr (record { complete = 0; listed = listed; count = count }),
      (
        refl,
        (
          [],
          record {
            whole = sym (append_nil listed);
            ascending = tt;
            counted = omega arith;
            room = omega arith;
            ended = inr (refl, why);
          },
        ),
      ),
    )
  ]
    where
      why : (count ≡ limit) ⊎ (budget < 3 * length {A = Attribute} [] + 3)
      why = elim (Bool-cases (count == limit)) [
        | inl q ↦ inl (ground arith)
        | inr q ↦ inr (ground arith)
      ]

  exhausted :
      NoneBetween start 0x10000 entries
      → Answered entries limit start budget count listed
          (some (inr (record { complete = 1; listed = listed; count = count })))
  exhausted n = (
    inr (record { complete = 1; listed = listed; count = count }),
    (
      refl,
      (
        [],
        record {
          whole = sym (append_nil listed);
          ascending = tt;
          counted = omega arith;
          room = omega arith;
          ended = inl (refl, n);
        },
      ),
    ),
  )

  module _ (a : Attribute) (is_entry : IsEntry a entries) (from : start ≤ a.id)
      (nearest : NoneBetween start a.id entries) (known : supported a.value.type ≡ true)
      (enough : 3 ≤ budget) where
    last_one :
        AreWords entries
        → a.id ≡ 0xffff
        → Answered entries limit start budget count listed (
            some (inr (record { complete = 1; listed = listed ++ a ∷ []; count = u8 (count + 1) })))
    last_one w q = (
      inr (record { complete = 1; listed = listed ++ a ∷ []; count = u8 (count + 1) }),
      (
        refl,
        (
          a ∷ [],
          record {
            whole = refl;
            ascending = (is_entry, from, nearest, known, tt);
            counted = omega arith;
            room = omega arith;
            ended = inl (
              refl,
              subst (λ k. NoneBetween k 0x10000 entries) end (NoneBetween-words 0x10000 entries w),
            );
          },
        ),
      ),
    )
      where
        end : 0x10000 ≡ a.id + 1
        end = omega arith

    still :
        (l : Listing) (more : List Attribute)
        → ((l.complete ≡ 1) × NoneBetween (end_of (a.id + 1) more) 0x10000 entries)
          ⊎ ((l.complete ≡ 0) × ((l.count ≡ limit) ⊎ (budget - 3 < 3 * length more + 3)))
        → ((l.complete ≡ 1) × NoneBetween (end_of (a.id + 1) more) 0x10000 entries)
          ⊎ ((l.complete ≡ 0) × ((l.count ≡ limit) ⊎ (budget < 3 * suc (length more) + 3)))
    still l more (inl h) = inl h
    still l more (inr (c, inl h)) = inr (c, inl h)
    still l more (inr (c, inr h)) = inr (c, inr (omega arith))

    continued :
        (r : Option (Result ⊎ Listing))
        → Answered entries limit (a.id + 1) (budget - 3) (count + 1) (listed ++ a ∷ []) r
        → Answered entries limit start budget count listed r
    continued r (inl s, (q, inl (z, none_yet, ne, b))) = absurd (omega arith)
    continued r (inl s, (q, inr u)) = (inl s, (q, inr u))
    continued r (inr l, (q, (more, g))) = (
      inr l,
      (
        q,
        (
          a ∷ more,
          record {
            whole = g.whole ∙ append_assoc listed (a ∷ []) more;
            ascending = (is_entry, from, nearest, known, g.ascending);
            counted = omega (arith, g.counted);
            room = omega (arith, g.room);
            ended = still l more g.ended;
          },
        ),
      ),
    )

-- From any state of the loop on.
discover_from-Answered :
    (fuel : ℕ) (entries : List Attribute) (limit start budget count : ℕ) (listed : List Attribute)
    → AreWords entries
    → budget / 3 < fuel
    → 3 * count + budget ≤ 100
    → Answered entries limit start budget count listed
        (discover_from fuel entries limit start budget count listed)
unfolding discover_from next_attribute
discover_from-Answered zero entries limit start budget count listed w f small = absurd (omega arith)
discover_from-Answered (suc fuel) entries limit start budget count listed w f small =
    elim (Option-cases (next_from start none entries)) [
      | inl e ↦
          rw (next_attribute, e, discover_from)
            (exhausted entries limit start budget count listed small (rw e at n.nearest))
      | inr (a, e) ↦
          rw (next_attribute, e, discover_from)
            (elim (Bool-cases (count == limit || ltb budget 3)) [
              | inl c ↦ rw c (stopped entries limit start budget count listed small c)
              | inr c ↦ rw c (elim (Bool-cases (supported a.value.type)) [
                | inr u ↦
                    rw u
                      (inl unsupported_data_type, (refl, inr (refl, (a, ((the_entry a e).0, u)))))
                | inl u ↦ rw u (elim (Bool-cases (a.id == 0xffff)) [
                  | inl z ↦ rw z (
                      last_one entries limit start budget count listed small a (the_entry a e).0
                        (the_entry a e).1 (rw e at n.nearest) u (ground arith) w (ground arith))
                  | inr z ↦ rw z (
                      let (is_entry, from, word) = the_entry a e in
                      let enough : 3 ≤ budget = ground arith in
                      let step : u16 (a.id + 1) ≡ a.id + 1 = ground arith in
                      let one_more : u8 (count + 1) ≡ count + 1 = omega arith in
                      rw (step, one_more)
                        (continued entries limit start budget count listed small a is_entry from
                          (rw e at n.nearest) u enough _
                          (discover_from-Answered fuel entries limit (a.id + 1) (budget - 3)
                            (count + 1) (listed ++ a ∷ []) w (omega arith) (omega arith))))
                ])
              ])
            ])
    ]
  where
    n : Next start none entries (next_from start none entries)
    n = next_from-Next start none entries w

    the_entry :
        (a : Attribute)
        → next_from start none entries ≡ some a
        → IsEntry a entries × (start ≤ a.id) × (a.id < 0x10000)
    the_entry a e = elim (n.entry a e) [ inl z ↦ absurd (cc) | inr z ↦ z ]

-- The loop of `discover` always ends. It answers that the buffer is too small where attributes are
-- asked for and none has room, or that a type is not supported where an entry has such a type.
-- Otherwise it lists entries in the strict order of their ids, from the start that is asked for and
-- without leaving one out; no more than there is room for, and the count is their number. If it says
-- that it is complete, no entry is left behind the last one; else it has listed as many as are asked
-- for, or has no room for one more.
pub discover_all_lists :
    (entries : List Attribute) (request : List ℕ) (flags capacity : ℕ)
    → AreWords entries
    → (o : Result ⊎ Listing) × ((discover_all entries request flags capacity ≡ some o)
        × Outcome entries
            (get_or request 2 0)
            (or_le16 (get_or request 0 0) (get_or request 1 0))
            (room_of flags capacity)
            0
            []
            o)
unfolding discover_all
discover_all_lists entries request flags capacity w =
    discover_from-Answered (suc (room_of flags capacity / 3)) entries (get_or request 2 0)
      (or_le16 (get_or request 0 0) (get_or request 1 0)) (room_of flags capacity) 0 [] w
      (omega arith) (small capacity)
  where
    small : (c : ℕ) → 3 * 0 + room_of flags c ≤ 100
    small c = ground arith
