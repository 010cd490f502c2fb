-- ===== src/Tests/Charset.antt =====
-- The conversion of character sets with a concrete iconv.
use csae.Prelude.{
  ℕ, ◌-◌, ◌≡◌, ◌≤◌, refl, true, false, some, none, List, [], ◌∷◌, ◌++◌, arith, ok, length,
  replicate, drop, leb, if◌then◌else◌,
}
use csae.Memory.Buffer.{Buffer}
use csae.Message.Print.{utf8}
use csae.Util.Charset.{Iconv, code_convert, utf8_to_gbk, code_convert-exact}

-- A conversion that copies as far as there is room, and fails where there is not enough.
abbrev copies : ℕ → Buffer → ℕ → List ℕ × ℕ
copies cd none room = ([], 0)
copies cd (some text) room = if leb (length text) room then (text, 0) else ([], 7)

copies_room : (cd room : ℕ) (text : Buffer) → length (copies cd text room).0 ≤ room
copies_room cd room none = omega arith
copies_room cd room (some text) = ground arith

abbrev copying : Iconv
copying = record { iconv_open = λ to from. 5; iconv = copies; iconv_room = copies_room }

code_convert-exact_example :
    code_convert copying
      (utf8 "utf-8")
      (utf8 "gb2312")
      (some (65 ∷ 66 ∷ 67 ∷ []))
      2
      (some (9 ∷ 9 ∷ 9 ∷ 9 ∷ []))
      3
    ≡ ok (
        some (record {
          outbuf = (65 ∷ 66 ∷ []) ++ (replicate (3 - 2) 0 ++ drop 3 (9 ∷ 9 ∷ 9 ∷ 9 ∷ []));
          succeeded = true;
          left_open = false;
        }))
code_convert-exact_example =
    code_convert-exact copying (utf8 "utf-8") (utf8 "gb2312") (65 ∷ 66 ∷ 67 ∷ [])
      (9 ∷ 9 ∷ 9 ∷ 9 ∷ []) 2 3 (omega arith) (omega arith) (omega arith)

utf8_to_gbk_short :
    utf8_to_gbk copying (some (65 ∷ 66 ∷ 67 ∷ [])) 3 (some (9 ∷ 9 ∷ 9 ∷ [])) 2
    ≡ ok (some (record { outbuf = 0 ∷ 0 ∷ 9 ∷ []; succeeded = false; left_open = true }))
unfolding utf8_to_gbk
utf8_to_gbk_short = refl
