-- ===== src/Message/Print.antt =====
-- What the five `operator<<` of include/protocol/message share: each line is made by sprintf in
-- `ostr` and put in the stream, and the offset moves on by the size of the field.
pub mod Digits
pub mod Laws
pub mod Lines
pub mod Total
use Prim.Native.Char.{code}
use Prim.Native.String.{String}
use csae.Prelude.{
  ℕ, zero, suc, ◌+◌, ◌-◌, ◌*◌, ◌/◌, ◌%◌, some, List, [], ◌∷◌, ◌++◌, reverse, length, replicate, ltb,
  if◌then◌else◌, Run, ok, fault, bind,
}
use csae.Memory.Text.{c_str, is_absent}
use csae.Util.Hex.{hex_digit, bytes_to_string}

-- The bytes of a character in UTF-8, the encoding of the source files. The labels have none above
-- U+FFFF.
abbrev pub utf8_char : ℕ → List ℕ
utf8_char c =
    if ltb c 0x80
    then c ∷ []
    else if ltb c 0x800
    then (0xc0 + c / 64) ∷ (0x80 + c % 64) ∷ []
    else (0xe0 + c / 4096) ∷ (0x80 + c / 64 % 64) ∷ (0x80 + c % 64) ∷ []

abbrev pub utf8 : String → List ℕ
utf8 String.[] = []
utf8 (String.◌∷◌ c s) = utf8_char (code c) ++ utf8 s

-- The digits of a number, at most `fuel` of them.
unfoldable pub numeral : ℕ → ℕ → ℕ → List ℕ
numeral base zero n = []
numeral base (suc fuel) n =
    let high = numeral base fuel (n / base) in
    (if ltb n base then [] else high) ++ (hex_digit (n % base) ∷ [])

-- "%ld" and PRIu64: a number below 2^64 has at most 20 decimal digits.
unfoldable pub decimal : ℕ → List ℕ
unfolding numeral
decimal n = numeral 10 20 n

-- "%0wX" with PRIX64: a number below 2^64 has at most 16 digits.
unfoldable pub hex : ℕ → ℕ → List ℕ
unfolding numeral
hex w n = let s = numeral 16 16 n in replicate (w - length s) 48 ++ s

-- "%-4ld[%s] label: %s\n", the text that every line has.
unfoldable pub line : ℕ → List ℕ → List ℕ → List ℕ → List ℕ
line offset digits label text =
    let s = decimal offset in
    s
    ++ (replicate (4 - length s) 32
        ++ (91 ∷ (digits ++ (93 ∷ 32 ∷ (label ++ (58 ∷ 32 ∷ (text ++ (10 ∷ []))))))))

-- sprintf into `char ostr[1024]`: the text, if it and its NUL fit.
unfoldable pub sprintf : List ℕ → Run (List ℕ)
sprintf s = if ltb (length s) 1024 then ok s else fault

-- What "%s" reads at a pointer, up to the NUL.
unfoldable pub read_string : List ℕ → Run (List ℕ)
read_string [] = fault
read_string (zero ∷ s) = ok []
read_string (suc c ∷ s) = bind (read_string s) (λ t. ok (suc c ∷ t))

-- The stream and the local variables. `value` and `len` are set before each use.
pub record Printing : Type 0 where
  pub os : List ℕ
  pub str : List ℕ  -- char[256]
  pub offset : ℕ

abbrev pub Printer : Type 0
Printer = Printing → Run Printing

infixl 5 ◌>>◌
unfoldable pub ◌>>◌ : Printer → Printer → Printer
◌>>◌ p q s = bind (p s) q

unfoldable pub skip : Printer
skip s = ok s

unfoldable pub out_of_bounds : Printer
out_of_bounds s = fault

-- `char str[256] = ""`. The header's function has no such array and does not need it.
unfoldable pub start : List ℕ → ℕ → Printing
start os offset = record { os = os; str = replicate 256 0; offset = offset }

-- `return os`.
abbrev pub finish : Run Printing → Run (List ℕ)
finish r = bind r (λ s. ok s.os)

-- `sprintf(ostr, …); offset += size; os << ostr`.
unfoldable pub put_line : List ℕ → List ℕ → List ℕ → ℕ → Printer
unfolding line sprintf
put_line digits label text size s =
    bind (sprintf (line s.offset digits label text))
      (λ t. ok (record s { os = s.os ++ t; offset = s.offset + size }))

-- A number of `size` bytes, with at least `w` hexadecimal digits.
unfoldable pub put_number : ℕ → List ℕ → ℕ → ℕ → Printer
unfolding put_line
put_number w label size value = put_line (hex w value) label (decimal value) size

-- `len` bytes of memory as digits in `str`, and the text that the pointer `shown` points to.
unfoldable pub put_bytes : List ℕ → List ℕ → ℕ → List ℕ → Printer
unfolding bytes_to_string read_string put_line
put_bytes label bytes len shown s = bind (bytes_to_string (some bytes) len (some s.str)) λ str.
    bind (read_string str) λ digits.
      bind (read_string shown) λ text. put_line digits label text len (record s { str = str })

-- `vehicle_id`: `std::string(vehicle_id, len).c_str()` is its text.
unfoldable pub put_vehicle_id : List ℕ → Printer
unfolding put_bytes
put_vehicle_id vehicle_id = put_bytes (utf8 "车辆编号") vehicle_id 8 (c_str vehicle_id)

-- A text with its length, under `if (0 != len && 0xFF != len)`.
unfoldable pub put_text : List ℕ → ℕ → List ℕ → Printer
unfolding put_bytes skip
put_text label len s = if is_absent len then skip else put_bytes label (c_str s) len (c_str s)

-- `message_id`: its digits in `str` are reversed one by one, and printed twice.
unfoldable pub put_message_id : List ℕ → Printer
unfolding bytes_to_string read_string put_line
put_message_id message_id s = bind (bytes_to_string (some message_id) 8 (some s.str)) λ str.
    bind (read_string str) λ digits.
      let tmp = reverse digits in put_line tmp (utf8 "消息编号") tmp 8 (record s { str = str })
