-- ===== src/Memory/Text.antt =====
-- Text fields of a message: `std::string` as the list of its bytes, and `char[8]` as a list of eight.
pub mod Laws
use csae.Prelude.{
  ℕ, zero, suc, Bool, ◌||◌, List, [], ◌∷◌, ◌++◌, length, take, ◌==◌, leb, if◌then◌else◌,
}
use csae.Memory.Read.{Reader, done, get_bytes}
use csae.Memory.Write.{Writer, skip, put_copy}

-- s.c_str(): the bytes of `s` with a NUL behind them.
abbrev pub c_str : List ℕ → List ℕ
c_str s = s ++ (0 ∷ [])

-- strncpy(dst, src, n): `n` bytes, with zeros from the first NUL of `src` on.
unfoldable pub strncpy : List ℕ → List ℕ → ℕ → List ℕ
strncpy dst src zero = dst
strncpy [] src (suc n) = []
strncpy (d ∷ dst) [] (suc n) = 0 ∷ strncpy dst [] n
strncpy (d ∷ dst) (zero ∷ src) (suc n) = 0 ∷ strncpy dst [] n
strncpy (d ∷ dst) (suc c ∷ src) (suc n) = suc c ∷ strncpy dst src n

-- `sizeof(a) <= size ? sizeof(a) : size`, the number of bytes that a constructor copies into `a`.
abbrev pub clip : ℕ → ℕ → ℕ
clip room size = if leb room size then room else size

-- What `char vehicle_id[8] = ""` and `uint8_t message_id[8] = {0}` start from.
abbrev pub eight_zeros : List ℕ
eight_zeros = 0 ∷ 0 ∷ 0 ∷ 0 ∷ 0 ∷ 0 ∷ 0 ∷ 0 ∷ []

-- The length byte of a text field: `s.length() >= 0xFF ? 0 : s.length()`.
abbrev pub text_len : List ℕ → ℕ
text_len s = if leb 0xff (length s) then 0 else length s

-- `if (0 != len && 0xFF != len)` fails.
abbrev pub is_absent : ℕ → Bool
is_absent len = len == 0 || len == 0xff

-- Under that test: `memcpy(buf + offset, s.c_str(), len); offset += len`.
unfoldable pub put_text : ℕ → List ℕ → Writer
unfolding skip put_copy
put_text len s = if is_absent len then skip else put_copy (c_str s) len

-- Under that test: `s = std::string((char*)buf + offset, len); offset += len`.
unfoldable pub get_text : ℕ → List ℕ → Reader (List ℕ)
unfolding done get_bytes
get_text len s = if is_absent len then done s else get_bytes len

-- `user_data` is written and read under `if (0 != user_data_len)` alone.
unfoldable pub put_user_data : ℕ → List ℕ → Writer
unfolding skip put_copy
put_user_data len s = if len == 0 then skip else put_copy (c_str s) len

unfoldable pub get_user_data : ℕ → List ℕ → Reader (List ℕ)
unfolding done get_bytes
get_user_data len s = if len == 0 then done s else get_bytes len
