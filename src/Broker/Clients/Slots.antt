-- ===== src/Broker/Clients/Slots.antt =====
-- The table of clients: what a write to one slot does to all.
use shvc.Base.{
  ℕ, zero, suc, ◌+◌, ◌≤◌, ◌<◌, ◌≡◌, ◌≢◌, refl, sym, ap, ◌∙◌, Bool, true, false, not, ◌||◌, ◌==◌,
  ==_iff, leb,
}
use shvc.Base.{
  none, some, List, [], ◌∷◌, ◌++◌, length, length-append, ◌*◌, arith, Bool-cases, inl, inr,
  replicate,
}
use shvc.Broker.State.{Client, Pointer, null, live, is_null, Slot, pointer_at, set_slot}
use shvc.Broker.Clients.{free_cid, enlarge, reuse_timeout}

pub pointer_at-set_slot_other :
    (slots : List Slot) (c i : ℕ) (f : Slot → Slot)
    → (i == c) ≡ false
    → pointer_at (set_slot slots c f) i ≡ pointer_at slots i
unfolding set_slot pointer_at
pointer_at-set_slot_other [] c i f h = refl
pointer_at-set_slot_other (s ∷ slots) zero zero f h = absurd (ground arith)
pointer_at-set_slot_other (s ∷ slots) zero (suc i) f h = refl
pointer_at-set_slot_other (s ∷ slots) (suc c) zero f h = refl
pointer_at-set_slot_other (s ∷ slots) (suc c) (suc i) f h =
    pointer_at-set_slot_other slots c i f (ground arith)

-- The written slot, of a write that gives this pointer whatever the slot was.
pub pointer_at-set_slot :
    (slots : List Slot) (c : ℕ) (f : Slot → Slot) (p : Pointer)
    → ((s : Slot) → (f s).client ≡ p)
    → c < length slots
    → pointer_at (set_slot slots c f) c ≡ some p
unfolding set_slot pointer_at
pointer_at-set_slot [] c f p h lt = absurd (omega arith)
pointer_at-set_slot (s ∷ slots) zero f p h lt = ap some (h s)
pointer_at-set_slot (s ∷ slots) (suc c) f p h lt = pointer_at-set_slot slots c f p h (omega arith)

-- A slot whose pointer is known, rewritten.
pub pointer_at-set_slot_known :
    (slots : List Slot) (c : ℕ) (f : Slot → Slot) (p q : Pointer)
    → ((s : Slot) → s.client ≡ p → (f s).client ≡ q)
    → pointer_at slots c ≡ some p
    → pointer_at (set_slot slots c f) c ≡ some q
unfolding set_slot pointer_at
pointer_at-set_slot_known [] c f p q h e = absurd (ground arith)
pointer_at-set_slot_known (s ∷ slots) zero f p q h e =
    ap some (h s (ap (λ o. elim o as (λ _. Pointer) [ some x ↦ x | none ↦ p ]) e))
pointer_at-set_slot_known (s ∷ slots) (suc c) f p q h e =
    pointer_at-set_slot_known slots c f p q h e

pointer_at-append :
    (slots more : List Slot) (i : ℕ) (p : Pointer)
    → pointer_at slots i ≡ some p
    → pointer_at (slots ++ more) i ≡ some p
unfolding pointer_at
pointer_at-append [] more i p e = absurd (ground arith)
pointer_at-append (s ∷ slots) more zero p e = e
pointer_at-append (s ∷ slots) more (suc i) p e = pointer_at-append slots more i p e

pub pointer_at-enlarge :
    (slots : List Slot) (c i : ℕ) (p : Pointer)
    → pointer_at slots i ≡ some p
    → pointer_at (enlarge slots c) i ≡ some p
unfolding enlarge
pointer_at-enlarge slots c i p e = elim (Bool-cases (c == length slots)) [
  | inl y ↦ rw y (pointer_at-append slots _ i p e)
  | inr n ↦ rw n e
]

-- The test of the search.
abbrev in_use : Slot → ℕ → Bool
in_use s now = not (is_null s.client) || leb now (s.lastuse + reuse_timeout)

-- The chosen slot holds no client.
pub free_cid_lem :
    (slots : List Slot) (now : ℕ) (c : Client)
    → pointer_at slots (free_cid slots now) ≢ some (live c)
unfolding free_cid pointer_at is_null
free_cid_lem [] now c e = ground arith
free_cid_lem (s ∷ slots) now c e = elim (Bool-cases (in_use s now)) [
  | inl y ↦
      let next : free_cid (s ∷ slots) now ≡ suc (free_cid slots now) = rw (free_cid, y) refl in
      free_cid_lem slots now c (sym (ap (pointer_at (s ∷ slots)) next) ∙ e)
  | inr n ↦
      let here : free_cid (s ∷ slots) now ≡ 0 = rw (free_cid, n) refl in
      let client : is_null s.client ≡ false =
        ap (λ o. elim o as (λ _. Bool) [ some p ↦ is_null p | none ↦ false ])
          (sym (ap (pointer_at (s ∷ slots)) here) ∙ e) in
      absurd (ground (arith, n, client))
]

pub free_cid-bound : (slots : List Slot) (now : ℕ) → free_cid slots now ≤ length slots
unfolding free_cid
free_cid-bound [] now = omega arith
free_cid-bound (s ∷ slots) now = ground (arith, free_cid-bound slots now)

pub length-set_slot :
    (slots : List Slot) (c : ℕ) (f : Slot → Slot) → length (set_slot slots c f) ≡ length slots
unfolding set_slot
length-set_slot [] c f = refl
length-set_slot (s ∷ slots) zero f = refl
length-set_slot (s ∷ slots) (suc c) f = ap suc (length-set_slot slots c f)

length-replicate : (n : ℕ) (s : Slot) → length (replicate n s) ≡ n
length-replicate zero s = refl
length-replicate (suc n) s = ap suc (length-replicate n s)

-- The table has room for the chosen ID, and does not get smaller.
pub length-enlarge :
    (slots : List Slot) (now : ℕ)
    → 0 < length slots
    → let c = free_cid slots now in (c < length (enlarge slots c)) × (0 < length (enlarge slots c))
unfolding enlarge
length-enlarge slots now h =
    let c = free_cid slots now in
    let bound = free_cid-bound slots now in
    let doubled =
      length-append slots (replicate (length slots) (record { client = null; lastuse = 0 })) in
    let more = length-replicate (length slots) (record { client = null; lastuse = 0 }) in
    elim (Bool-cases (c == length slots)) [
      | inl y ↦ rw y (
        omega (arith, doubled, more, (==_iff c (length slots)).0 y),
        omega (arith, doubled, more),
      )
      | inr n ↦ rw n (ground (arith, n, bound), h)
    ]

all_in_use : (slots : List Slot) (now : ℕ) → now ≤ reuse_timeout → free_cid slots now ≡ length slots
unfolding free_cid
all_in_use [] now early = refl
all_in_use (s ∷ slots) now early =
    let used : in_use s now ≡ true = ground arith in
    rw (free_cid, used) (ap suc (all_in_use slots now early))

-- For the first ten minutes of the clock every ID counts as used lately, also one that no client
-- ever had: the new ID is the number of slots, and the table doubles with every client.
pub free_cid_early :
    (slots : List Slot) (now : ℕ)
    → now ≤ reuse_timeout
    → (free_cid slots now ≡ length slots)
      × (length (enlarge slots (free_cid slots now)) ≡ 2 * length slots)
unfolding enlarge
free_cid_early slots now early =
    let all = all_in_use slots now early in
    let same : (free_cid slots now == length slots) ≡ true = (==_iff _ _).1 all in
    let doubled =
      length-append slots (replicate (length slots) (record { client = null; lastuse = 0 })) in
    let more = length-replicate (length slots) (record { client = null; lastuse = 0 }) in
    (all, rw same (omega (arith, doubled, more)))
