-- ===== src/ChainPack/Scheme.antt =====
-- enum chainpack_scheme of include/shv/chainpack.h, and its tests on a scheme byte.
pub mod Classes
use shvc.Base.{ℕ, Bool, ltb, ◌==◌, ◌&&◌, ◌||◌, not}
use shvc.ChainPack.Integer.{scheme_signed}

abbrev pub null : ℕ
null = 128

abbrev pub uint : ℕ
uint = 129

abbrev pub int : ℕ
int = 130

abbrev pub double : ℕ
double = 131

abbrev pub bool : ℕ
bool = 132

abbrev pub blob : ℕ
blob = 133

abbrev pub string : ℕ
string = 134

abbrev pub list : ℕ
list = 136

abbrev pub map : ℕ
map = 137

abbrev pub imap : ℕ
imap = 138

abbrev pub meta_map : ℕ
meta_map = 139

abbrev pub decimal : ℕ
decimal = 140

abbrev pub datetime : ℕ
datetime = 141

abbrev pub cstring : ℕ
cstring = 142

abbrev pub blob_chain : ℕ
blob_chain = 143

abbrev pub false : ℕ
false = 253

abbrev pub true : ℕ
true = 254

abbrev pub term : ℕ
term = 255

-- chainpack_is_int.
unfoldable pub is_int : ℕ → Bool
unfolding scheme_signed
is_int c = c == int || (ltb c null && scheme_signed c)

-- chainpack_is_uint, which tests for CPS_Int as it stands in the source.
unfoldable pub is_uint : ℕ → Bool
unfolding scheme_signed
is_uint c = c == int || (ltb c null && not (scheme_signed c))
