-- ===== src/Util/Charset.antt =====
-- src/util/converter.c: text from one character set to another by iconv, which is not part of the
-- repository: what its functions answer is an argument.
use csae.Prelude.{
  ℕ, zero, suc, ◌-◌, ◌≤◌, ◌≡◌, ◌≢◌, refl, ap, Bool, false, not, ◌&&◌, Option, none, some, List, [],
  ◌∷◌, ◌++◌, length, length-replicate, le→leb, take, drop, replicate, leb, ◌==◌, if◌then◌else◌, Run,
  ok, fault, bind, arith,
}
use csae.Message.Print.{utf8}
use csae.Memory.Write.{splice, put_front}
use csae.Memory.Buffer.{Buffer}
use csae.Memory.Write.Laws.{put_front-drop}

-- `iconv_open(to, from)` gives a descriptor, a pointer as a number. `iconv` gives the bytes that it
-- has written and its result, 0 if all of the input was converted without loss; it does not write
-- more than it is told that there is room for.
pub record Iconv : Type 0 where
  pub iconv_open : List ℕ → List ℕ → ℕ
  pub iconv : ℕ → Buffer → ℕ → List ℕ × ℕ
  pub iconv_room : (cd room : ℕ) (text : Buffer) → length (iconv cd text room).0 ≤ room

-- The output buffer, whether 0 is returned, and whether the descriptor stays open.
pub record Converted : Type 0 where
  pub outbuf : List ℕ
  pub succeeded : Bool
  pub left_open : Bool

-- What is written over `n` zeros at the start of `out`.
put_front-zeros :
    (n : ℕ) (out bs : List ℕ)
    → n ≤ length out
    → length bs ≤ n
    → put_front bs (put_front (replicate n 0) out)
      ≡ bs ++ (replicate (n - length bs) 0 ++ drop n out)
unfolding put_front
put_front-zeros n out [] room le =
    let whole : n - 0 ≡ n = omega arith in
    rw (put_front-drop (replicate n 0) out (rw length-replicate room), length-replicate, whole)
put_front-zeros zero out (b ∷ bs) room le = absurd (omega arith)
put_front-zeros (suc n) [] (b ∷ bs) room le = absurd (omega arith)
put_front-zeros (suc n) (x ∷ out) (b ∷ bs) room le =
    let less : suc n - suc (length bs) ≡ n - length bs = omega arith in
    rw less (ap (◌∷◌ b) (put_front-zeros n out bs (omega arith) (omega arith)))

module _ (system : Iconv) where
  open system use {iconv_open, iconv, iconv_room}

  -- Behind the call of `iconv`: a result other than 0 returns at once; otherwise the descriptor is
  -- closed. `*pout = '\0'` then changes the pointer, not the text.
  unfoldable pub finish : List ℕ × ℕ → List ℕ → Converted
  unfolding splice
  finish (written, result) out = record {
    outbuf = splice 0 written out;
    succeeded = result == 0;
    left_open = not (result == 0);
  }

  -- `iconv` may read the input up to `inlen`; `outbuf` is cleared up to `outlen`.
  unfoldable pub convert_into : ℕ → Buffer → ℕ → Buffer → ℕ → Run Converted
  unfolding finish
  convert_into cd inbuf inlen none outlen = fault
  convert_into cd none inlen (some out) outlen =
      if leb outlen (length out)
      then ok (finish (iconv cd none outlen) (splice 0 (replicate outlen 0) out))
      else fault
  convert_into cd (some text) inlen (some out) outlen =
      if leb outlen (length out) && leb inlen (length text)
      then ok
          (finish (iconv cd (some (take inlen text)) outlen) (splice 0 (replicate outlen 0) out))
      else fault

  -- Without a descriptor the output is left as it is.
  unfoldable pub code_convert : List ℕ → List ℕ → Buffer → ℕ → Buffer → ℕ → Run (Option Converted)
  unfolding convert_into
  code_convert from_charset to_charset inbuf inlen outbuf outlen =
      let cd = iconv_open to_charset from_charset in
      if cd == 0
      then ok none
      else bind (convert_into cd inbuf inlen outbuf outlen) (λ c. ok (some c))

  unfoldable pub utf8_to_gbk : Buffer → ℕ → Buffer → ℕ → Run (Option Converted)
  unfolding code_convert
  utf8_to_gbk inbuf inlen outbuf outlen =
      code_convert (utf8 "utf-8") (utf8 "gb2312") inbuf inlen outbuf outlen

  unfoldable pub gbk_to_utf8 : Buffer → ℕ → Buffer → ℕ → Run (Option Converted)
  unfolding code_convert
  gbk_to_utf8 inbuf inlen outbuf outlen =
      code_convert (utf8 "gb2312") (utf8 "utf-8") inbuf inlen outbuf outlen

  -- If iconv gives a descriptor for the two character sets, and both buffers have the bytes that the
  -- call names: whatever iconv has written stands at the start of the output buffer, zeros stand
  -- behind it up to `outlen`, the bytes from there on are as before, and the call succeeds exactly
  -- if iconv's result is 0; otherwise the descriptor stays open.
  pub code_convert-exact :
      (from_charset to_charset text out : List ℕ) (inlen outlen : ℕ)
      → iconv_open to_charset from_charset ≢ 0
      → inlen ≤ length text
      → outlen ≤ length out
      → let (written, result) =
          iconv (iconv_open to_charset from_charset) (some (take inlen text)) outlen in
        code_convert from_charset to_charset (some text) inlen (some out) outlen
        ≡ ok (
            some (record {
              outbuf = written ++ (replicate (outlen - length written) 0 ++ drop outlen out);
              succeeded = result == 0;
              left_open = not (result == 0);
            }))
  unfolding code_convert convert_into finish splice
  code_convert-exact from_charset to_charset text out inlen outlen opened le room =
      let open_ne : (iconv_open to_charset from_charset == 0) ≡ false = ground arith in
      rw
        (
          open_ne,
          le→leb outlen (length out) room,
          le→leb inlen (length text) le,
          put_front-zeros outlen out _ room (iconv_room _ outlen (some (take inlen text))),
        )
        refl
