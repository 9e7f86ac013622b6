-- ===== src/CpTools/Skipping.antt =====
-- cp_unpack_skip and cp_unpack_finish of libshvcp/cp_unpack.c go over whole items.
use shvc.Base.{ℕ, zero, suc, ◌+◌, ◌-◌, ◌^◌, ◌<◌, Bool, false}
use shvc.Base.{List, [], ◌∷◌, ◌++◌, append_assoc, length, length-append}
use shvc.Base.{◌≡◌, refl, ap, ◌∙◌, arith}
use shvc.CpItem.{Value}
use shvc.CpTools.{cp_unpack, up, down, effect, is_unfinished, cp_unpack_drop1, count_depth}
use shvc.CpTools.{item_loop, cp_unpack_finish}
use shvc.CpTools.Whole.{Items, nothing, single, group, all_of, IsWhole, suc_eq0}

deepen-up : (v : Value) (d : ℕ) → effect v ≡ up → suc d < 2 ^ 31 → count_depth (effect v) d ≡ suc d
unfolding count_depth
deepen-up v d e h = rw e (ground arith)

loop_to :
    (fuel depth d : ℕ) (v : Value) (src : List Value)
    → count_depth (effect v) depth ≡ suc d
    → item_loop (suc fuel) depth (v ∷ src) ≡ item_loop fuel (suc d) src
unfolding item_loop cp_unpack
loop_to fuel depth d v src n = rw (item_loop, n, suc_eq0 d) refl

loop_ends :
    (fuel depth : ℕ) (v : Value) (src : List Value)
    → count_depth (effect v) depth ≡ 0
    → item_loop (suc fuel) depth (v ∷ src) ≡ (v, src)
unfolding item_loop cp_unpack
loop_ends fuel depth v src n = rw (item_loop, n) refl

module _ (takes : Value → Bool) where
  -- Inside of a container, the loop goes on behind whole items.
  item_loop-all_of :
      (is : Items) (total fuel d : ℕ) (src : List Value)
      → IsWhole takes is
      → length (all_of is) + suc d < 2 ^ 31
      → total ≡ length (all_of is) + fuel
      → item_loop total (suc d) (all_of is ++ src) ≡ item_loop fuel (suc d) src
  unfolding all_of count_depth
  item_loop-all_of nothing total fuel d src w h e =
      let e' : total ≡ fuel = omega arith in rw e' refl
  item_loop-all_of (single v is) zero fuel d src w h e = absurd (omega arith)
  item_loop-all_of (single v is) (suc total) fuel d src w h e =
      loop_to total (suc d) d v (all_of is ++ src) (rw (w.0) refl)
      ∙ item_loop-all_of is total fuel d src w.2 (omega arith) (omega arith)
  item_loop-all_of (group a inner b is) zero fuel d src w h e = absurd (omega arith)
  item_loop-all_of (group a inner b is) (suc total) fuel d src w h e =
      let src' = b ∷ (all_of is ++ src) in
      let whole = length-append (all_of inner) (b ∷ all_of is) in
      ap (λ x. item_loop (suc total) (suc d) (a ∷ x))
        (append_assoc (all_of inner) (b ∷ all_of is) src)
      ∙ loop_to total (suc d) (suc d) a (all_of inner ++ src')
          (deepen-up a (suc d) w.0.0 (omega arith))
      ∙ item_loop-all_of inner total (suc (length (all_of is) + fuel)) (suc d) src' w.2
          (omega arith) (omega arith)
      ∙ loop_to (length (all_of is) + fuel) (suc (suc d)) d b (all_of is ++ src)
          (rw (w.1.0) (omega arith))
      ∙ item_loop-all_of is (length (all_of is) + fuel) fuel d src w.4 (omega arith) refl

drop1_finished :
    (v : Value) (src : List Value) → is_unfinished v ≡ false → cp_unpack_drop1 v src ≡ (v, src)
unfolding cp_unpack_drop1
drop1_finished v [] n = rw (cp_unpack_drop1, n) refl
drop1_finished v (u ∷ us) n = rw (cp_unpack_drop1, n) refl

-- From one container deep, the loop stops behind the container's end.
loop_out :
    (takes : Value → Bool) (is : Items) (b : Value) (src : List Value) (total : ℕ)
    → IsWhole takes is
    → effect b ≡ down
    → length (all_of is) + 1 < 2 ^ 31
    → length (all_of is) < total
    → item_loop total 1 (all_of is ++ b ∷ src) ≡ (b, src)
unfolding count_depth
loop_out takes is b src total w e s h =
    let more = total - suc (length (all_of is)) in
    item_loop-all_of takes is total (suc more) 0 (b ∷ src) w s (omega arith)
    ∙ loop_ends more 1 b src (rw e (omega arith))

-- After an item that is finished, cp_unpack_finish of one container goes over the whole items that are
-- left in it, less than 2 ^ 31 - 1 parts, and stops behind its end.
pub cp_unpack_finish-all_of :
    (takes : Value → Bool) (is : Items) (v b : Value) (src : List Value)
    → is_unfinished v ≡ false
    → IsWhole takes is
    → effect b ≡ down
    → length (all_of is) + 1 < 2 ^ 31
    → cp_unpack_finish 1 v (all_of is ++ b ∷ src) ≡ (b, src)
unfolding cp_unpack_finish
cp_unpack_finish-all_of takes is v b src n w e s =
    let fits = length-append (all_of is) (b ∷ src) in
    rw (cp_unpack_finish, drop1_finished v (all_of is ++ b ∷ src) n)
      (loop_out takes is b src (suc (length (all_of is ++ b ∷ src))) w e s (omega arith))
