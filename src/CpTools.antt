-- ===== src/CpTools.antt =====
-- The functions that go over whole items: cp_repack of libshvcp/cp_tools.c, and cp_unpack_drop1,
-- cp_unpack_drop, cp_unpack_skip and cp_unpack_finish of libshvcp/cp_unpack.c.
--
-- A generic unpacker is the list of the items that it gives with the buffer that these functions set,
-- and invalid ones behind the last. A generic packer is which items it takes.
pub mod Whole
pub mod Skipping
mod Runs
use shvc.Base.{ℕ, zero, suc, ◌+◌, ◌-◌, ◌%◌, ◌^◌, Bool, true, false, not, ltb, ◌==◌, if◌then◌else◌}
use shvc.Base.{List, [], ◌∷◌, ◌++◌, length}
use shvc.CpItem.{BufInfo, Value, invalid, null, bool, int, uint, double, decimal, datetime, blob}
use shvc.CpItem.{string, list, map, imap, meta, container_end, eof}

-- cp_unpack.
unfoldable pub cp_unpack : List Value → Value × List Value
cp_unpack [] = (invalid eof, [])
cp_unpack (v ∷ vs) = (v, vs)

-- What an item does to the depth: nothing, one more, one less, or it is invalid.
pub data Effect : Type 0 where
  same up down stop : Effect

unfoldable pub piece_effect : Bool → Bool → Effect
piece_effect true true = same
piece_effect true false = up
piece_effect false true = down
piece_effect false false = same

-- The switch over the type of an item.
unfoldable pub effect : Value → Effect
unfolding piece_effect
effect (invalid e) = stop
effect null = same
effect (bool b) = same
effect (int i) = same
effect (uint n) = same
effect (double n) = same
effect (decimal m e) = same
effect (datetime m o) = same
effect (blob i) = piece_effect i.first i.last
effect (string i) = piece_effect i.first i.last
effect list = up
effect map = up
effect imap = up
effect meta = up
effect container_end = down

-- The depth of cp_repack, which is an `unsigned`.
unfoldable pub deepen : Effect → ℕ → ℕ
deepen same depth = depth
deepen up depth = (depth + 1) % 2 ^ 32
deepen down depth = (depth + 2 ^ 32 - 1) % 2 ^ 32
deepen stop depth = depth

unfoldable pub is_stop : Effect → Bool
is_stop same = false
is_stop up = false
is_stop down = false
is_stop stop = true

-- What cp_repack gives: its value, the items packed, and the items still to come.
pub record Repacked : Type 0 where
  pub res : Bool
  pub packed : List Value
  pub left : List Value

unfoldable pub pack_before : Value → Repacked → Repacked
pack_before v r = record r { packed = v ∷ r.packed }

-- The loop of cp_repack, on fuel of the items to come and one more.
unfoldable pub repack_loop : ℕ → (Value → Bool) → ℕ → List Value → Repacked
repack_loop zero takes depth src = record { res = false; packed = []; left = src }
repack_loop (suc fuel) takes depth src =
    let (v, src') = cp_unpack src in
    let depth' = deepen (effect v) depth in
    let rest = repack_loop fuel takes depth' src' in
    if is_stop (effect v)
    then record { res = false; packed = []; left = src' }
    else if not (takes v)
    then record { res = false; packed = []; left = src' }
    else if depth' == 0
    then record { res = true; packed = v ∷ []; left = src' }
    else pack_before v rest

-- cp_repack.
unfoldable pub cp_repack : (Value → Bool) → List Value → Repacked
cp_repack takes src = repack_loop (suc (length src)) takes 0 src

-- Whether more of a string or a blob is to come.
unfoldable pub is_unfinished : Value → Bool
is_unfinished (blob i) = not i.last
is_unfinished (string i) = not i.last
is_unfinished (invalid e) = false
is_unfinished null = false
is_unfinished (bool b) = false
is_unfinished (int i) = false
is_unfinished (uint n) = false
is_unfinished (double n) = false
is_unfinished (decimal m e) = false
is_unfinished (datetime m o) = false
is_unfinished list = false
is_unfinished map = false
is_unfinished imap = false
is_unfinished meta = false
is_unfinished container_end = false

-- cp_unpack_drop1, from the item of the last call: the item, and the items still to come.
unfoldable pub cp_unpack_drop1 : Value → List Value → Value × List Value
cp_unpack_drop1 v [] = if is_unfinished v then (invalid eof, []) else (v, [])
cp_unpack_drop1 v (u ∷ us) =
    let rest = cp_unpack_drop1 u us in if is_unfinished v then rest else (v, u ∷ us)

-- The depth of for_cp_unpack_item, an `int`, where one below zero ends the loop as zero does: the
-- number behind the greatest `int` wraps around to one below zero.
unfoldable pub count_depth : Effect → ℕ → ℕ
count_depth same depth = depth
count_depth up depth = if ltb (suc depth) (2 ^ 31) then suc depth else 0
count_depth down depth = depth - 1
count_depth stop depth = 0

-- for_cp_unpack_item with nothing to do for an item, on fuel of the items to come and one more.
unfoldable pub item_loop : ℕ → ℕ → List Value → Value × List Value
item_loop zero depth src = (invalid eof, src)
item_loop (suc fuel) depth src =
    let (v, src') = cp_unpack src in
    let depth' = count_depth (effect v) depth in
    let rest = item_loop fuel depth' src' in if depth' == 0 then (v, src') else rest

-- cp_unpack_finish, whose `unsigned` depth from 2 ^ 31 on is one below zero as an `int`,
-- cp_unpack_skip and cp_unpack_drop.
unfoldable pub cp_unpack_finish : ℕ → Value → List Value → Value × List Value
cp_unpack_finish depth v src =
    let (_, src') = cp_unpack_drop1 v src in
    if ltb depth (2 ^ 31) then item_loop (suc (length src')) depth src' else cp_unpack src'

unfoldable pub cp_unpack_skip : Value → List Value → Value × List Value
cp_unpack_skip v src = cp_unpack_finish 0 v src

unfoldable pub is_container : Value → Bool
is_container list = true
is_container map = true
is_container imap = true
is_container meta = true
is_container (blob i) = false
is_container (string i) = false
is_container (invalid e) = false
is_container null = false
is_container (bool b) = false
is_container (int i) = false
is_container (uint n) = false
is_container (double n) = false
is_container (decimal m e) = false
is_container (datetime m o) = false
is_container container_end = false

unfoldable pub cp_unpack_drop : Value → List Value → Value × List Value
cp_unpack_drop v src = if is_container v then cp_unpack_finish 1 v src else cp_unpack_drop1 v src
