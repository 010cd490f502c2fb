-- ===== src/Util/PrintBuffer.antt =====
-- src/util/converter.c: print_buffer, the bytes of a buffer in the log.
pub mod Fits
use csae.Prelude.{
  ℕ, zero, suc, ◌+◌, ◌*◌, ◌%◌, ◌^◌, Bool, true, false, Option, none, some, List, [], ◌∷◌, ◌++◌,
  length, ltb, if◌then◌else◌, Run, ok, fault, bind,
}
use csae.Memory.Write.{put_front}
use csae.Memory.Buffer.{Buffer}
use csae.Util.Hex.{hex_byte, strcat}
use csae.Message.Print.{utf8, numeral, decimal, read_string}

-- sprintf(s, "%02X ", b).
abbrev pub spaced_byte : ℕ → List ℕ
spaced_byte b = hex_byte b ++ (32 ∷ [])

-- The loop over `n` more bytes.
unfoldable pub put_spaced : ℕ → List ℕ → List ℕ → Run (List ℕ)
unfolding strcat
put_spaced zero bytes str = ok str
put_spaced (suc n) [] str = fault
put_spaced (suc n) (b ∷ bytes) str = bind (strcat str (spaced_byte b)) (λ d. put_spaced n bytes d)

-- "%s(0x%X,%ld): ", for a size below 2^63.
unfoldable pub opening : List ℕ → ℕ → ℕ → List ℕ
unfolding numeral decimal
opening prefix id size =
    prefix ++ (utf8 "(0x" ++ (numeral 16 16 id ++ (utf8 "," ++ (decimal size ++ utf8 "): "))))

-- What is in the array `str` at the call of LOGD, up to its NUL.
unfoldable pub log_line : List ℕ → List ℕ → ℕ → List ℕ → ℕ → Run (List ℕ)
unfolding opening put_front put_spaced read_string
log_line str prefix id bytes size =
    let s = opening prefix id size in
    if ltb (length s) (length str)
    then bind (put_spaced size bytes (put_front (s ++ (0 ∷ [])) str))
        (λ d. bind (strcat d (10 ∷ [])) read_string)
    else fault

-- `debug` says whether _UDEBUG is defined, and `prefix` is the text of the C string. The array on the
-- stack has the length that the code computes in size_t. A null buffer is logged, and read all the
-- same if the size is not 0. Nothing is logged without _UDEBUG.
unfoldable pub print_buffer : Bool → (ℕ → List ℕ) → List ℕ → ℕ → Buffer → ℕ → Run (Option (List ℕ))
unfolding log_line
print_buffer false stack prefix id buf size = ok none
print_buffer true stack prefix id none size =
    bind (log_line (stack ((4 * size + length prefix + 100) % 2 ^ 64)) prefix id [] size)
      λ t. ok (some t)
print_buffer true stack prefix id (some bytes) size =
    bind (log_line (stack ((4 * size + length prefix + 100) % 2 ^ 64)) prefix id bytes size)
      λ t. ok (some t)
