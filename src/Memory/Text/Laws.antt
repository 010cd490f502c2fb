-- ===== src/Memory/Text/Laws.antt =====
-- What text fields put on the wire, and what is read back.
use csae.Prelude.{
  ℕ, zero, suc, ◌+◌, ◌≤◌, ◌<◌, ◌≡◌, refl, sym, ap, true, false, inl, inr, List, [], ◌∷◌, arith,
  length, length-append, length-take, take, take-append, take_all, ◌==◌, if◌then◌else◌, Bool-cases,
}
use csae.Memory.Read.Laws.{Reads, done-Reads, get_bytes-Reads}
use csae.Memory.Read.Safe.{Safe, Any, forget-Safe, done-Safe, get_bytes-Safe, Safe-le}
use csae.Memory.Write.{put_copy}
use csae.Memory.Write.Laws.{Writes, Stops, put_copy-Stops, skip-Writes, put_copy-Writes}
use csae.Memory.Text.{c_str, strncpy, is_absent, put_text, get_text, put_user_data, get_user_data}

pub length-strncpy : (dst src : List ℕ) (n : ℕ) → length (strncpy dst src n) ≡ length dst
unfolding strncpy
length-strncpy dst src zero = refl
length-strncpy [] src (suc n) = refl
length-strncpy (d ∷ dst) [] (suc n) = ap suc (length-strncpy dst [] n)
length-strncpy (d ∷ dst) (zero ∷ src) (suc n) = ap suc (length-strncpy dst [] n)
length-strncpy (d ∷ dst) (suc c ∷ src) (suc n) = ap suc (length-strncpy dst src n)

pub nil_of_length : (s : List ℕ) → length s ≡ 0 → s ≡ []
nil_of_length [] h = refl
nil_of_length (x ∷ s) h = absurd (omega arith)

pub absent_of_short : (len : ℕ) → len < 255 → is_absent len ≡ true → len ≡ 0
absent_of_short len h e = ground arith

-- All the bytes of an array, such as the eight of a vehicle id.
pub put_all-Writes : (s : List ℕ) → Writes (put_copy s (length s)) s
put_all-Writes s = rw (take_all s) at (put_copy-Writes s (length s) (omega arith))

pub put_eight-Writes : (s : List ℕ) → length s ≡ 8 → Writes (put_copy s 8) s
put_eight-Writes s e = rw e at (put_all-Writes s)

-- All the bytes of a string, without the NUL.
pub put_c_str-Writes : (s : List ℕ) → Writes (put_copy (c_str s) (length s)) s
put_c_str-Writes s =
    rw (take-append s (0 ∷ [])) at
      (put_copy-Writes (c_str s) (length s) (rw length-append (omega arith)))

-- What a text field puts on the wire: nothing, or the first `len` bytes of a C string.
pub text_bytes : ℕ → List ℕ → List ℕ
text_bytes len s = if is_absent len then [] else take len (c_str s)

pub put_text-Writes :
    (len : ℕ) (s : List ℕ) → len ≤ length s + 1 → Writes (put_text len s) (text_bytes len s)
unfolding put_text text_bytes
put_text-Writes len s h = elim (Bool-cases (is_absent len)) [
  | inl e ↦ rw e skip-Writes
  | inr e ↦ rw e (put_copy-Writes (c_str s) len (rw length-append (omega arith)))
]

-- With the right length byte that is the text.
pub text_bytes-length : (s : List ℕ) → length s < 255 → text_bytes (length s) s ≡ s
unfolding text_bytes
text_bytes-length s h = elim (Bool-cases (is_absent (length s))) [
  | inl e ↦ rw e (sym (nil_of_length s (absent_of_short (length s) h e)))
  | inr e ↦ rw e (take-append s (0 ∷ []))
]

pub put_user_data-Writes : (s : List ℕ) → Writes (put_user_data (length s) s) s
unfolding put_user_data
put_user_data-Writes s = elim (Bool-cases (length s == 0)) [
  | inl e ↦ rw e (rw (nil_of_length s (ground arith)) skip-Writes)
  | inr e ↦ rw e (put_c_str-Writes s)
]

pub put_user_data_at-Writes :
    (len : ℕ) (s : List ℕ) → len ≡ length s → Writes (put_user_data len s) s
put_user_data_at-Writes len s e = rw e (put_user_data-Writes s)

pub get_text-Reads : (s : List ℕ) → length s < 255 → Reads (get_text (length s) []) s s
unfolding get_text
get_text-Reads s h = elim (Bool-cases (is_absent (length s))) [
  | inl e ↦ rw e (rw (nil_of_length s (absent_of_short (length s) h e)) (done-Reads []))
  | inr e ↦ rw e (get_bytes-Reads (length s) s refl)
]

pub get_text_bytes-Reads :
    (len : ℕ) (s : List ℕ)
    → len ≡ length s
    → len < 255
    → Reads (get_text len []) (text_bytes len s) s
get_text_bytes-Reads len s e h =
    rw e (rw (text_bytes-length s (omega arith)) (get_text-Reads s (omega arith)))

pub get_user_data-Reads : (s : List ℕ) → Reads (get_user_data (length s) []) s s
unfolding get_user_data
get_user_data-Reads s = elim (Bool-cases (length s == 0)) [
  | inl e ↦ rw e (rw (nil_of_length s (ground arith)) (done-Reads []))
  | inr e ↦ rw e (get_bytes-Reads (length s) s refl)
]

pub get_user_data_at-Reads :
    (len : ℕ) (s : List ℕ) → len ≡ length s → Reads (get_user_data len []) s s
get_user_data_at-Reads len s e = rw e (get_user_data-Reads s)

pub length-text_bytes :
    (len : ℕ) (s : List ℕ) → len < 255 → len ≤ length s + 1 → length (text_bytes len s) ≡ len
unfolding text_bytes
length-text_bytes len s h le = elim (Bool-cases (is_absent len)) [
  | inl e ↦ rw e (sym (absent_of_short len h e))
  | inr e ↦ rw e (omega (arith, length-take len (c_str s), length-append s (0 ∷ [])))
]

pub get_text-Safe : (len : ℕ) (s : List ℕ) → len < 256 → Safe (get_text len s) Any 254
unfolding get_text
get_text-Safe len s h = elim (Bool-cases (is_absent len)) [
  | inl e ↦ rw e (Safe-le 254 (omega arith) (done-Safe s Any tt))
  | inr e ↦ rw e (Safe-le 254 (ground arith) (forget-Safe (get_bytes-Safe len (ground arith))))
]

pub get_user_data-Safe : (len : ℕ) (s : List ℕ) → len < 256 → Safe (get_user_data len s) Any 255
unfolding get_user_data
get_user_data-Safe len s h = elim (Bool-cases (len == 0)) [
  | inl e ↦ rw e (Safe-le 255 (omega arith) (done-Safe s Any tt))
  | inr e ↦ rw e (Safe-le 255 (omega arith) (forget-Safe (get_bytes-Safe len (ground arith))))
]

-- A length byte past the NUL of the string makes the copy read outside it.
pub put_text-Stops :
    (len : ℕ) (s : List ℕ) → length s + 1 < len → len < 255 → Stops (put_text len s)
unfolding put_text
put_text-Stops len s h short =
    let present : is_absent len ≡ false = ground arith in
    rw present (put_copy-Stops (c_str s) len (rw length-append (omega arith)))
