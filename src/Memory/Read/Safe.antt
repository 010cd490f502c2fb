-- ===== src/Memory/Read/Safe.antt =====
-- How many bytes behind the offset a reader may touch, and what it is sure to return.
use csae.Prelude.{
  ℕ, zero, suc, ◌+◌, ◌≤◌, ◌<◌, ◌≡◌, refl, Bool, false, some, List, [], ◌∷◌, arith, length, All, ok,
}
use csae.Memory.Word.{word_of, of_le, IsByte}
use csae.Memory.Read.{Reader, ◌>>=◌, done, front, slice, get_bytes, get_word, get_byte}

abbrev pub Any : {A : Type 0} → A → Type 0
Any a = Unit {0}

-- With `n` bytes of memory behind the offset `r` returns a value with `Q`, and it moves on by at
-- most `n`.
pub record Safe {A : Type 0} (r : Reader A) (Q : A → Type 0) (n : ℕ) : Type 0 where
  pub apply :
      (buf : List ℕ) (offset : ℕ)
      → All IsByte buf
      → offset + n ≤ length buf
      → (a : A) × (end : ℕ) × (r buf offset ≡ ok (a, end)) × (end ≤ offset + n) × Q a

front_total :
    (n : ℕ) (xs : List ℕ)
    → All IsByte xs
    → n ≤ length xs
    → (bs : List ℕ) × (front n xs ≡ some bs) × All IsByte bs × (length bs ≡ n)
unfolding front
front_total zero xs b h = ([], refl, tt, refl)
front_total (suc n) [] b h = elim h [ ]
front_total (suc n) (x ∷ xs) b h =
    let (bs, e, all, l) = front_total n xs b.1 (omega arith) in
    (x ∷ bs, rw e, (b.0, all), omega arith)

slice_total :
    (offset n : ℕ) (buf : List ℕ)
    → All IsByte buf
    → offset + n ≤ length buf
    → 1 ≤ n
    → (bs : List ℕ) × (slice offset n buf ≡ some bs) × All IsByte bs × (length bs ≡ n)
unfolding slice
slice_total zero n buf b h p = front_total n buf b (omega arith)
slice_total (suc offset) n [] b h p = absurd (omega arith)
slice_total (suc offset) n (x ∷ buf) b h p = slice_total offset n buf b.1 (omega arith) p

pub done-Safe : {A : Type 0} (a : A) (Q : A → Type 0) → Q a → Safe (done a) Q 0
unfolding done
done-Safe a Q q = record { apply = λ buf offset b h. (a, offset, refl, omega arith, q) }

pub get_bytes-Safe : (n : ℕ) → 1 ≤ n → Safe (get_bytes n) (λ bs. All IsByte bs × (length bs ≡ n)) n
unfolding get_bytes
get_bytes-Safe n p = record {
  apply = λ buf offset b h.
      let (bs, e, all, l) = slice_total offset n buf b h p in
      (bs, offset + n, rw (get_bytes, e), omega arith, (all, l));
}

pub bind-Safe :
    {A B : Type 0} {r : Reader A} {f : A → Reader B} {Q : A → Type 0} {R : B → Type 0} {n m : ℕ}
    → Safe r Q n
    → ((a : A) → Q a → Safe (f a) R m)
    → Safe (r >>= f) R (n + m)
unfolding ◌>>=◌
bind-Safe hr hf = record {
  apply = λ buf offset all h.
      let (a, mid, e, d, q) = hr.apply buf offset all (omega arith) in
      let (b, end, e', d', q') = (hf a q).apply buf mid all (omega arith) in
      (b, end, rw e e', omega arith, q');
}

-- A larger bound is a bound.
pub Safe-le :
    {A : Type 0} {r : Reader A} {Q : A → Type 0} {n : ℕ} (m : ℕ) → n ≤ m → Safe r Q n → Safe r Q m
Safe-le m le hr = record {
  apply = λ buf offset all h.
      let (a, end, e, d, q) = hr.apply buf offset all (omega arith) in (a, end, e, omega arith, q);
}

pub forget-Safe : {A : Type 0} {r : Reader A} {Q : A → Type 0} {n : ℕ} → Safe r Q n → Safe r Any n
forget-Safe hr = record {
  apply =
      λ buf offset all h. let (a, end, e, d, q) = hr.apply buf offset all h in (a, end, e, d, tt);
}

pub get_word-Safe : (be : Bool) (w : ℕ) → 1 ≤ w → Safe (get_word be w) Any w
unfolding get_word
get_word-Safe be w p = record {
  apply = λ buf offset all h.
      let (bs, end, e, d, q) = (get_bytes-Safe w p).apply buf offset all h in
      (word_of be w bs, end, rw e, d, tt);
}

of_le_one : (bs : List ℕ) → All IsByte bs → length bs ≡ 1 → of_le bs < 256
unfolding of_le
of_le_one [] all l = omega arith
of_le_one (b ∷ []) all l = omega arith
of_le_one (b ∷ c ∷ bs) all l = absurd (omega arith)

pub get_byte-Safe : Safe get_byte IsByte 1
unfolding get_byte word_of
get_byte-Safe = record {
  apply = λ buf offset all h.
      let (bs, end, e, d, (some_bytes, l)) =
        (get_bytes-Safe 1 (omega arith)).apply buf offset all h in
      (of_le bs, end, rw e, d, of_le_one bs some_bytes l);
}

-- The byte at an offset inside the memory.
pub get_byte_lem :
    (buf : List ℕ) (offset : ℕ)
    → All IsByte buf
    → offset + 1 ≤ length buf
    → (v : ℕ) × (get_byte buf offset ≡ ok (v, offset + 1))
unfolding get_byte get_word get_bytes
get_byte_lem buf offset all h =
    let (bs, e, _, _) = slice_total offset 1 buf all h (omega arith) in
    (word_of false 1 bs, rw (get_byte, get_word, ◌>>=◌, done, get_bytes, e))
