-- ===== src/Broker/Mount/Found.antt =====
-- What mounted_client finds.
use shvc.Base.{
  ℕ, zero, suc, ◌+◌, ◌-◌, ◌/◌, ◌%◌, ◌^◌, ◌≤◌, ◌<◌, ◌≡◌, refl, sym, ap, ◌∙◌, true, not, ltb, ltb→lt,
  lt→ltb,
}
use shvc.Base.{
  if◌then◌else◌, none, some, List, [], ◌∷◌, ◌++◌, length, get_elem?, arith, Bool-cases,
  Option-cases, inl, inr, ℤ, pos,
}
use shvc.Broker.State.{
  Mount, Slot, Broker, pointer_at, behind, at_node_end, is_path_prefix, to_int, cid_active,
}
use shvc.Broker.Mount.{
  Order, less, same, more, compare_prefix, search_loop, mounted_at, clientmnt, skip_slash, nobody,
  target_at, out_of_bounds, mounted_client,
}
use shvc.Broker.Mount.Search.{next_round, search_loop_round, some_same}

-- An element of the array for a path.
abbrev pub IsFound : List Mount → List ℕ → Mount → Type 0
IsFound mounts path m =
    (is_path_prefix path m.path ≡ true) × (k : ℕ) × (get_elem? mounts k ≡ some m)

next_round-IsFound :
    (fuel : ℕ) (mounts : List Mount) (path : List ℕ) (l u : ℕ) (n m : Mount) (o : Order)
    → ((l u : ℕ) → search_loop fuel mounts path l u ≡ some m → IsFound mounts path m)
    → get_elem? mounts ((u - 1 + l) / 2) ≡ some n
    → next_round fuel mounts path l u n o ≡ some m
    → IsFound mounts path m
unfolding next_round
next_round-IsFound fuel mounts path l u n m same ih e k =
    elim (Bool-cases (is_path_prefix path n.path)) [
      | inl y ↦
          let this : n ≡ m = some_same n m (sym (rw y refl) ∙ k) in
          rw (← this) (y, (u - 1 + l) / 2, e)
      | inr w ↦ ih ((u - 1 + l) / 2 + 1) u (sym (rw w refl) ∙ k)
    ]
next_round-IsFound fuel mounts path l u n m less ih e k = ih l ((u - 1 + l) / 2) k
next_round-IsFound fuel mounts path l u n m more ih e k = ih ((u - 1 + l) / 2 + 1) u k

search_loop-IsFound :
    (fuel : ℕ) (mounts : List Mount) (path : List ℕ) (m : Mount) (l u : ℕ)
    → search_loop fuel mounts path l u ≡ some m
    → IsFound mounts path m
unfolding search_loop
search_loop-IsFound zero mounts path m l u h = absurd (ground arith)
search_loop-IsFound (suc fuel) mounts path m l u h = elim (Bool-cases (ltb l u)) [
  | inr n ↦ absurd (ground (arith, h, n))
  | inl y ↦ elim (Option-cases (get_elem? mounts ((u - 1 + l) / 2))) [
    | inl e ↦ absurd (ground (arith, h, y, e))
    | inr (n, e) ↦
        next_round-IsFound fuel mounts path l u n m (compare_prefix path n.path)
          (search_loop-IsFound fuel mounts path m) e
          (sym (search_loop_round fuel mounts path l u n (ltb→lt l u y) e) ∙ h)
  ]
]

-- Whatever the mounts are, the one that the search finds is one of them, and the path is at or below
-- it.
pub mounted_at-IsFound :
    (mounts : List Mount) (path : List ℕ) (m : Mount)
    → mounted_at mounts path ≡ some m
    → IsFound mounts path m
unfolding mounted_at
mounted_at-IsFound mounts path m h =
    search_loop-IsFound (length mounts) mounts path m 0 (length mounts) h

pointer_at_end : (slots : List Slot) (i : ℕ) → length slots ≤ i → pointer_at slots i ≡ none
unfolding pointer_at
pointer_at_end [] i h = refl
pointer_at_end (s ∷ slots) zero h = absurd (omega arith)
pointer_at_end (s ∷ slots) (suc i) h = pointer_at_end slots i (omega arith)

to_int_wraps : (k : ℕ) → k < 2 ^ 31 → to_int (pos (2 ^ 32 + k)) ≡ pos k
unfolding to_int
to_int_wraps k h =
    let e : (2 ^ 32 + k) % 2 ^ 32 ≡ k = omega arith in rw (to_int, e, lt→ltb k (2 ^ 31) h) refl

past_the_end :
    (b : Broker) (i : ℕ) (rest : List ℕ)
    → length b.slots ≤ i
    → target_at b (pos i) (skip_slash rest) ≡ out_of_bounds
unfolding target_at
past_the_end b i rest h = rw (target_at, pointer_at_end b.slots i h) refl

-- A number behind `.broker/client/` that is 2 ^ 32 above the ID of an active client passes the test,
-- which takes it as an `int`, and the table is read behind its end.
pub mounted_client_overflow :
    (strtol : List ℕ → ℤ × List ℕ) (b : Broker) (digits end : List ℕ) (k : ℕ)
    → strtol digits ≡ (pos (2 ^ 32 + k), end)
    → at_node_end end ≡ true
    → k < 2 ^ 31
    → cid_active b (pos k) ≡ true
    → length b.slots ≤ 2 ^ 32
    → mounted_client strtol b (clientmnt ++ digits) ≡ out_of_bounds
unfolding mounted_client behind
mounted_client_overflow strtol b digits end k parsed ended small active bound =
    ap
      (λ r.
        if not (at_node_end r.1)
        then nobody
        else (if cid_active b (to_int r.0) then target_at b r.0 (skip_slash r.1) else nobody))
      parsed
    ∙ rw (ended, to_int_wraps k small, active) (past_the_end b (2 ^ 32 + k) end (omega arith))
