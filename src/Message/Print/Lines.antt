-- ===== src/Message/Print/Lines.antt =====
-- What each kind of line shows, and that it fits the arrays that it is made in.
use csae.Prelude.{
  ℕ, zero, suc, ◌+◌, ◌*◌, ◌^◌, ◌≤◌, ◌<◌, ◌≡◌, refl, sym, ap, ◌∙◌, true, false, inl, inr, some, List,
  [], ◌∷◌, ◌++◌, append_assoc, append-nil, arith, length, length-append, length-replicate, lt→ltb,
  All, Bool-cases, reverse, length-reverse, map, ok,
}
use csae.Memory.Word.{IsByte, word_bytes, length-word_bytes, bound}
use csae.Memory.Write.{put_front, splice}
use csae.Memory.Write.Laws.{length-splice, put_front-prefix}
use csae.Memory.Text.{c_str, is_absent}
use csae.Memory.Text.Laws.{nil_of_length, absent_of_short}
use csae.Util.Hex.{bytes_to_string}
use csae.Util.Hex.RoundTrip.{digits, length-digits, digits-NoNul, NoNul, bytes_to_string-digits}
use csae.Util.Hex.Overflow.{bytes_to_string-overflow}
use csae.Message.Print.{
  utf8, decimal, hex, line, sprintf, Printing, Printer, put_line, put_number, read_string,
  put_bytes, put_vehicle_id, put_text, put_message_id,
}
use csae.Message.Print.Digits.{
  value, value-decimal, value-hex, length-decimal, length-hex, of_be, of_be-word_bytes, of_be-byte,
  swap_nibbles, value-reverse,
}
use csae.Message.Print.Laws.{
  Row, Shows, numeric, textual, identifier, until_nul, Printed, Prints, Faults, skip-Prints,
}

-- A line with few digits and a short text fits `ostr`.
pub length-line :
    (offset : ℕ) (ds label t : List ℕ)
    → length ds + length label + length t < 900
    → length (line offset ds label t) < 1024
unfolding line
length-line offset ds label t h =
    simp (length-append, length-replicate) (omega (arith, length-decimal offset))

-- One line, whatever it shows.
pub put_line-Printed :
    (p : Printer) (s : Printing) (ds label t bs str : List ℕ) (size : ℕ)
    → p s ≡ put_line ds label t size (record s { str = str })
    → length str ≡ length s.str
    → length ds + length label + length t < 900
    → size ≡ length bs
    → ((r : Row) → r.digits ≡ ds → r.text ≡ t → Shows r bs)
    → Printed p s bs
unfolding put_line sprintf
put_line-Printed p s ds label t bs str size e same few n shows =
    let r : Row = record { offset = s.offset; digits = ds; label = label; text = t } in
    let fits =
      lt→ltb (length (line s.offset ds label t)) 1024 (length-line s.offset ds label t few) in
    record {
      rows = r ∷ [];
      after = record { os = s.os ++ line s.offset ds label t; str = str; offset = s.offset + size };
      runs = e ∙ rw fits;
      os_lem = rw append-nil;
      offset_lem = rw n;
      str_lem = same;
      table = (bs, [], sym (append-nil bs), refl, shows r refl refl, refl);
    }

pub put_number-Prints :
    (w size v : ℕ) (label bs : List ℕ)
    → w ≤ 16
    → length label < 500
    → v < 2 ^ 64
    → size ≡ length bs
    → of_be bs ≡ v
    → Prints (put_number w label size v) bs
unfolding put_number
put_number-Prints w size v label bs le few lt n e = record {
  apply = λ s room.
      put_line-Printed (put_number w label size v) s (hex w v) label (decimal v) bs s.str size refl
        refl (omega (arith, length-hex w v le, length-decimal v)) n
        (λ r d t.
          numeric (ap (value 16 0) d ∙ value-hex w v lt ∙ sym e)
            (ap (value 10 0) t ∙ value-decimal v lt ∙ sym e));
}

-- The fields of 1, 2, 4 and 8 bytes.
module _ (w v : ℕ) (label : List ℕ) (le : w ≤ 16) (few : length label < 500) where
  pub u8-Prints : v < 256 → Prints (put_number w label 1 v) (word_bytes false 1 v)
  u8-Prints lt =
      put_number-Prints w 1 v label (word_bytes false 1 v) le few (omega arith)
        (sym (length-word_bytes false 1 v)) (of_be-byte v lt)

  pub u16-Prints : v < 2 ^ 16 → Prints (put_number w label 2 v) (word_bytes true 2 v)
  unfolding bound
  u16-Prints lt =
      put_number-Prints w 2 v label (word_bytes true 2 v) le few (omega arith)
        (sym (length-word_bytes true 2 v)) (of_be-word_bytes 2 v lt)

  pub u32-Prints : v < 2 ^ 32 → Prints (put_number w label 4 v) (word_bytes true 4 v)
  unfolding bound
  u32-Prints lt =
      put_number-Prints w 4 v label (word_bytes true 4 v) le few (omega arith)
        (sym (length-word_bytes true 4 v)) (of_be-word_bytes 4 v lt)

  pub u64-Prints : v < 2 ^ 64 → Prints (put_number w label 8 v) (word_bytes true 8 v)
  unfolding bound
  u64-Prints lt =
      put_number-Prints w 8 v label (word_bytes true 8 v) le few lt
        (sym (length-word_bytes true 8 v)) (of_be-word_bytes 8 v lt)

read_string-until_nul : (s rest : List ℕ) → read_string (s ++ (0 ∷ rest)) ≡ ok (until_nul s)
unfolding read_string
read_string-until_nul [] rest = refl
read_string-until_nul (zero ∷ s) rest = refl
read_string-until_nul (suc c ∷ s) rest = rw (read_string-until_nul s rest)

until_nul-NoNul : (s : List ℕ) → NoNul s → until_nul s ≡ s
until_nul-NoNul [] h = refl
until_nul-NoNul (zero ∷ s) h = absurd (omega (arith, h.0))
until_nul-NoNul (suc c ∷ s) h = ap (◌∷◌ (suc c)) (until_nul-NoNul s h.1)

length-until_nul : (s : List ℕ) → length (until_nul s) ≤ length s
length-until_nul [] = omega arith
length-until_nul (zero ∷ s) = omega arith
length-until_nul (suc c ∷ s) = omega (arith, length-until_nul s)

-- What is read from `str` behind `bytes_to_string`.
read_string-digits :
    (bs str : List ℕ)
    → 2 * length bs + 1 ≤ length str
    → read_string (put_front (digits bs ++ (0 ∷ [])) str) ≡ ok (digits bs)
read_string-digits bs str room =
    let fits : length (digits bs ++ (0 ∷ [])) ≤ length str =
      rw (length-append, length-digits) room in
    let (rest, e) = put_front-prefix (digits bs ++ (0 ∷ [])) str fits in
    rw (e, append_assoc, read_string-until_nul (digits bs) rest)
      (ap ok (until_nul-NoNul (digits bs) (digits-NoNul bs)))

length-str :
    (bs str : List ℕ)
    → 2 * length bs + 1 ≤ length str
    → length (put_front (digits bs ++ (0 ∷ [])) str) ≡ length str
unfolding splice
length-str bs str room =
    length-splice 0 (digits bs ++ (0 ∷ [])) str (rw (length-append, length-digits) (omega arith))

-- Fewer than 128 bytes fit `str`, as digits.
put_bytes-Prints :
    (label bs post shown t : List ℕ)
    → length label < 500
    → length bs < 128
    → read_string shown ≡ ok t
    → t ≡ until_nul bs
    → Prints (put_bytes label (bs ++ post) (length bs) shown) bs
unfolding put_bytes
put_bytes-Prints label bs post shown t few short e same = record {
  apply = λ s room.
      let fits : 2 * length bs + 1 ≤ length s.str = omega arith in
      put_line-Printed (put_bytes label (bs ++ post) (length bs) shown) s (digits bs) label t bs
        (put_front (digits bs ++ (0 ∷ [])) s.str) (length bs)
        (rw (bytes_to_string-digits bs post s.str fits, read_string-digits bs s.str fits, e))
        (length-str bs s.str fits)
        (omega (arith, length-digits bs, ap length same, length-until_nul bs)) refl
        (λ r d u. textual d (u ∙ same));
}

pub put_vehicle_id-Prints :
    (vehicle_id : List ℕ) → length vehicle_id ≡ 8 → Prints (put_vehicle_id vehicle_id) vehicle_id
unfolding put_vehicle_id
put_vehicle_id-Prints vehicle_id n =
    rw (n, append-nil vehicle_id) at
      (put_bytes-Prints (utf8 "车辆编号") vehicle_id [] (c_str vehicle_id) (until_nul vehicle_id)
        (omega arith) (omega arith) (read_string-until_nul vehicle_id []) refl)

-- A text of fewer than 128 bytes.
pub put_text-Prints :
    (label : List ℕ) (len : ℕ) (s : List ℕ)
    → length label < 500
    → len ≡ length s
    → len < 128
    → Prints (put_text label len s) s
unfolding put_text
put_text-Prints label len s few e short = elim (Bool-cases (is_absent len)) [
  | inl absent ↦
      rw (absent, nil_of_length s (sym e ∙ absent_of_short len (omega arith) absent)) skip-Prints
  | inr there ↦
      rw (there, e)
        (put_bytes-Prints label s (0 ∷ []) (c_str s) (until_nul s) few (omega arith)
          (read_string-until_nul s []) refl)
]

text_Faults :
    (label s : List ℕ) → 128 ≤ length s → length s < 255 → Faults (put_text label (length s) s)
unfolding put_text put_bytes
text_Faults label s long short = record {
  apply = λ p room.
      let there : is_absent (length s) ≡ false = ground arith in
      rw (there, bytes_to_string-overflow s (0 ∷ []) p.str (omega arith) (omega arith));
}

-- One of 128 to 254 bytes does not fit `char str[256]` as digits.
pub put_text-Faults :
    (label : List ℕ) (len : ℕ) (s : List ℕ)
    → len ≡ length s
    → 128 ≤ len
    → len < 255
    → Faults (put_text label len s)
put_text-Faults label len s e long short = rw e (text_Faults label s (omega arith) (omega arith))

length-swapped : (id : List ℕ) → length (reverse (map swap_nibbles id)) ≡ length id
length-swapped id = length-reverse (map swap_nibbles id) ∙ each id
  where
    each : (bs : List ℕ) → length (map swap_nibbles bs) ≡ length bs
    each [] = refl
    each (b ∷ bs) = ap suc (each bs)

eight_digits :
    (id str : List ℕ)
    → length id ≡ 8
    → 2 * length id + 1 ≤ length str
    → bytes_to_string (some id) 8 (some str) ≡ ok (put_front (digits id ++ (0 ∷ [])) str)
eight_digits id str n room = rw (append-nil id, n) at (bytes_to_string-digits id [] str room)

pub put_message_id-Prints :
    (id : List ℕ)
    → length id ≡ 8
    → All IsByte id
    → Prints (put_message_id id) (reverse (map swap_nibbles id))
unfolding put_message_id
put_message_id-Prints id n bytes = record {
  apply = λ s room.
      let fits : 2 * length id + 1 ≤ length s.str = omega arith in
      let tmp = reverse (digits id) in
      let str = put_front (digits id ++ (0 ∷ [])) s.str in
      put_line-Printed (put_message_id id) s tmp (utf8 "消息编号") tmp (reverse (map swap_nibbles id))
        str 8 (rw (eight_digits id s.str n fits, read_string-digits id s.str fits))
        (length-str id s.str fits) (omega (arith, length-reverse (digits id), length-digits id))
        (sym n ∙ sym (length-swapped id))
        (λ r d u. identifier (ap (value 16 0) d ∙ value-reverse id bytes) (u ∙ sym d));
}
