-- ===== src/Broker/Signal/Choice.antt =====
-- signal_destinations of libshvbroker/multipack.c: who gets a signal.
use shvc.Base.{ℕ, zero, suc, ◌+◌, ◌*◌, ◌≤◌, ◌<◌, Bool, true, false, not, ◌&&◌, ◌||◌, ltb, ◌==◌}
use shvc.Base.{Bool-cases, none, some, List, [], ◌∷◌, length, All, get_or, bit_and, ◌/◌, ◌%◌}
use shvc.Base.{◌≡◌, refl, ap, ◌∙◌, ◌⊎◌, inl, inr, arith, length-take}
use shvc.Rpcri.{accepted, rejected, read_beyond, no_fuel}
use shvc.Rpcri.Identifier.{rpcri_match}
use shvc.Broker.Nbool.{NboolT, nbool_n, valid_index, words, nbool, nbool_or, nbool_clear}
use shvc.Broker.Nbool.{set_word, shrink, used_words, all_but}
use shvc.Broker.Nbool.Words.{length-set_word}
use shvc.Broker.Nbool.Laws.{nbool-nbool_or, nbool-nbool_clear}
use shvc.Broker.Subscription.{Subscription}
use shvc.Broker.State.{Broker}
use shvc.Broker.Signal.{Access, or_matching, may_receive, clear_loop, signal_destinations}

nbool-none : (j : ℕ) → nbool none j ≡ false
unfolding nbool valid_index
nbool-none j = refl

pub nbool_bound : (v : NboolT) (j : ℕ) → nbool v j ≡ true → j < length (words v) * 32
unfolding nbool valid_index
nbool_bound none j h = absurd (ground arith)
nbool_bound (some vals) j h = ground arith

length-shrink : (xs : List ℕ) → length (words (shrink xs)) ≤ length xs
unfolding shrink
length-shrink xs = elim (Bool-cases (used_words xs (length xs) == 0)) [
  | inl y ↦ rw y (omega arith)
  | inr n ↦ rw n (omega (arith, length-take (used_words xs (length xs)) xs))
]

length-nbool_clear : (v : NboolT) (i : ℕ) → length (words (nbool_clear v i)) ≤ length (words v)
unfolding nbool_clear
length-nbool_clear v i = elim (Bool-cases (valid_index v i)) [
  | inl y ↦
      let new =
        set_word (words v) (i / nbool_n)
          (bit_and (get_or (words v) (i / nbool_n) 0) (all_but (i % nbool_n))) in
      let same =
        length-set_word (words v) (i / nbool_n)
          (bit_and (get_or (words v) (i / nbool_n) 0) (all_but (i % nbool_n))) in
      rw y (omega (arith, length-shrink new, same))
  | inr n ↦ rw n (omega arith)
]

step_cleared :
    (res : NboolT) (keep : ℕ → Bool) (cid j : ℕ)
    → (nbool res cid && not (keep cid)) ≡ true
    → (nbool (nbool_clear res cid) j && (ltb j (suc cid) || keep j))
      ≡ (nbool res j && (ltb j cid || keep j))
step_cleared res keep cid j c =
    let same : cid ≡ j → keep cid ≡ keep j = λ e. ap keep e in
    ground (arith, nbool-nbool_clear res cid j, same)

step_kept :
    (res : NboolT) (keep : ℕ → Bool) (cid j : ℕ)
    → (nbool res cid && not (keep cid)) ≡ false
    → (nbool res j && (ltb j (suc cid) || keep j)) ≡ (nbool res j && (ltb j cid || keep j))
step_kept res keep cid j c =
    let same : cid ≡ j → keep cid ≡ keep j = λ e. ap keep e in
    let same' : cid ≡ j → nbool res cid ≡ nbool res j = λ e. ap (nbool res) e in
    ground (arith, same, same')

step_stop :
    (res : NboolT) (keep : ℕ → Bool) (cid j : ℕ)
    → valid_index res cid ≡ false
    → nbool res j ≡ (nbool res j && (ltb j cid || keep j))
unfolding valid_index
step_stop none keep cid j n = ground (arith, nbool_bound none j)
step_stop (some vals) keep cid j n = ground (arith, nbool_bound (some vals) j)

clear_loop_lem :
    (fuel : ℕ) (keep : ℕ → Bool) (cid : ℕ) (res : NboolT) (j : ℕ)
    → length (words res) * 32 ≤ fuel + cid
    → nbool (clear_loop fuel keep cid res) j ≡ (nbool res j && (ltb j cid || keep j))
unfolding clear_loop
clear_loop_lem zero keep cid res j h = ground (arith, nbool_bound res j)
clear_loop_lem (suc fuel) keep cid res j h = elim (Bool-cases (valid_index res cid)) [
  | inl y ↦ rw y (elim (Bool-cases (nbool res cid && not (keep cid))) [
    | inl c ↦ rw c (
        clear_loop_lem fuel keep (suc cid) (nbool_clear res cid) j
          (omega (arith, length-nbool_clear res cid))
        ∙ step_cleared res keep cid j c)
    | inr k ↦
        rw k (clear_loop_lem fuel keep (suc cid) res j (omega arith) ∙ step_kept res keep cid j k)
  ])
  | inr n ↦ rw n (step_stop res keep cid j n)
]

-- The client is subscribed to a resource identifier that matches the signal.
unfoldable pub wants : List Subscription → List ℕ → List ℕ → List ℕ → ℕ → Bool
wants [] path source signal cid = false
wants (sub ∷ subs) path source signal cid =
    let rest = wants subs path source signal cid in
    elim (rpcri_match sub.ri path source (some signal)) as (λ _. Bool) [
      | accepted ↦ nbool sub.clients cid || rest
      | rejected ↦ rest
      | read_beyond ↦ rest
      | no_fuel ↦ rest
    ]

-- The matching of the resource identifier ends with an answer.
abbrev pub IsAnswered : List ℕ → List ℕ → List ℕ → Subscription → Type 0
IsAnswered path source signal sub =
    (rpcri_match sub.ri path source (some signal) ≡ accepted)
    ⊎ (rpcri_match sub.ri path source (some signal) ≡ rejected)

or_matching_lem :
    (subs : List Subscription) (path source signal : List ℕ) (res : NboolT)
    → All (IsAnswered path source signal) subs
    → (d : NboolT) × (or_matching subs path source signal res ≡ some d)
      × ((cid : ℕ) → nbool d cid ≡ (nbool res cid || wants subs path source signal cid))
unfolding or_matching wants
or_matching_lem [] path source signal res h = (res, refl, λ cid. ground arith)
or_matching_lem (sub ∷ subs) path source signal res h = elim h.0 [
  | inl y ↦
      let (d, e, l) = or_matching_lem subs path source signal (nbool_or res sub.clients) h.1 in
      rw (or_matching, wants, y)
        (d, e, λ cid. ground (arith, l cid, nbool-nbool_or res sub.clients cid))
  | inr n ↦ rw (or_matching, wants, n) (or_matching_lem subs path source signal res h.1)
]

pub signal_destinations-wants :
    (role_access : Access) (b : Broker) (path source signal : List ℕ) (access : ℕ)
    → All (IsAnswered path source signal) b.subscriptions
    → (d : NboolT) × (signal_destinations role_access b path source signal access ≡ some d)
      × ((cid : ℕ)
          → nbool d cid ≡ (
              wants b.subscriptions path source signal cid
              && may_receive role_access b path source access cid))
unfolding signal_destinations
signal_destinations-wants role_access b path source signal access h =
    let (res, e, l) = or_matching_lem b.subscriptions path source signal none h in
    let keep = may_receive role_access b path source access in
    let fuel = length (words res) * nbool_n in
    (
      clear_loop fuel keep 0 res,
      rw (signal_destinations, e) refl,
      λ cid.
          clear_loop_lem fuel keep 0 res cid (omega arith) ∙ ground (arith, l cid, nbool-none cid),
    )
