-- ===== src/Stream/Serial/Escape.antt =====
-- The escaped form of bytes, and the escape codes.
use shvc.Base.{ℕ, ◌≡◌, refl, true, false, not, ◌||◌, ◌&&◌, ◌==◌, ==_iff}
use shvc.Base.{if◌then◌else◌, List, [], ◌∷◌, ◌++◌, arith}
use shvc.Base.Bytes.{IsByte, all_below, all_below_sound}
use shvc.Stream.{stx, etx, atx, esc, escx, descx, escapable, escaped}

-- What stands for a byte between STX and ETX.
abbrev pub escape_byte : ℕ → List ℕ
escape_byte b = if escapable b then esc ∷ escx b ∷ [] else b ∷ []

unfoldable pub escape : List ℕ → List ℕ
escape [] = []
escape (b ∷ bytes) = escape_byte b ++ escape bytes

code_table :
    all_below 256 (λ b. not (escapable b) || (escaped (escx b) && (descx (escx b) == b))) ≡ true
unfolding all_below escapable escaped
code_table = refl

-- The code of an escaped byte is one, and gives the byte back.
pub escapable_code :
    (b : ℕ) → IsByte b → escapable b ≡ true → (escaped (escx b) ≡ true) × (descx (escx b) ≡ b)
escapable_code b h e =
    let row = all_below_sound 256 _ b code_table h in
    (ground (arith, row, e), (==_iff _ _).0 (ground (arith, row, e)))

-- A byte that is sent as it is, is none of the four.
pub plain_byte :
    (b : ℕ)
    → escapable b ≡ false
    → ((b == stx) ≡ false) × ((b == etx) ≡ false) × ((b == atx) ≡ false) × ((b == esc) ≡ false)
unfolding escapable
plain_byte b e = ground (arith, e)
