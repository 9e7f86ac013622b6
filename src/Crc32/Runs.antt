-- ===== src/Crc32/Runs.antt =====
-- Runs of the CRC, and the theorems applied to concrete data.
use shvc.Base.{ℕ, ◌≡◌, refl, List, [], ◌∷◌, ◌++◌, arith, All}
use shvc.Base.Bytes.{IsByte}
use shvc.Crc32.{crc32_init, crc32_update, crc32}
use shvc.Crc32.Bitwise.{bitwise_update, crc32_update-bitwise_update, crc32_update-append}

-- The characters 1 to 9, whose CRC-32 is published as 0xcbf43926.
abbrev check_message : List ℕ
check_message = 49 ∷ 50 ∷ 51 ∷ 52 ∷ 53 ∷ 54 ∷ 55 ∷ 56 ∷ 57 ∷ []

check_value : crc32 check_message ≡ 0xcbf43926
unfolding crc32
check_value = refl

All-bytes : All IsByte check_message
All-bytes = ground arith

crc32_update-bitwise_update_example :
    crc32_update crc32_init check_message ≡ bitwise_update crc32_init check_message
crc32_update-bitwise_update_example =
    crc32_update-bitwise_update crc32_init check_message (omega arith) All-bytes

split_message :
    crc32_update crc32_init (check_message ++ (10 ∷ []))
    ≡ crc32_update (crc32_update crc32_init check_message) (10 ∷ [])
split_message = crc32_update-append check_message (10 ∷ []) crc32_init (omega arith)
