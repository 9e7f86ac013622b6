-- ===== src/CpTools/Runs.antt =====
-- Tests and witnesses for the functions over whole items.
use shvc.Base.{◌≡◌, refl, Bool, true, false, [], ◌∷◌, pos}
use shvc.CpItem.{Value, BufInfo, null, int, string, list, meta, container_end}
use shvc.CpTools.{effect, cp_repack, repack_loop, is_stop, cp_unpack, deepen, pack_before}
use shvc.CpTools.Whole.{Items, nothing, single, group}

abbrev all_taken : Value → Bool
all_taken v = true

abbrev first_piece : BufInfo
first_piece = record { len = 1; eoff = 0; first = true; last = false; stream = false; hex = false }

abbrev last_piece : BufInfo
last_piece = record { len = 1; eoff = 0; first = false; last = true; stream = false; hex = false }

-- `[null, "..."]`, with the string in two pieces.
abbrev two_pieces : Items
two_pieces =
    group list (single null (group (string first_piece) nothing (string last_piece) nothing))
      container_end nothing

-- An item with meta: only its meta is packed.
only_meta :
    cp_repack all_taken (meta ∷ int (pos 1) ∷ null ∷ container_end ∷ int (pos 3) ∷ []) ≡ record {
      res = true;
      packed = meta ∷ int (pos 1) ∷ null ∷ container_end ∷ [];
      left = int (pos 3) ∷ [];
    }
unfolding cp_repack repack_loop is_stop effect cp_unpack deepen pack_before
only_meta = refl
