-- ===== src/Memory/Word.antt =====
-- Machine words as lists of bytes. A load or a store of an integer through a cast pointer uses the
-- byte order of the machine, which is little-endian here; `bswap` is the compiler's
-- `__builtin_bswap16`, `__builtin_bswap32` and `__builtin_bswap64`.
use csae.Prelude.{
  ℕ, zero, suc, ◌+◌, ◌-◌, ◌*◌, ◌/◌, ◌%◌, ◌^◌, ◌<◌, ◌≡◌, refl, ap, ◌∙◌, Bool, true, false, List, [],
  ◌∷◌, reverse, arith, length, length-reverse, All, All-reverse, if◌then◌else◌,
}
use mathlib.Core.List.{reverse-reverse}

abbrev pub IsByte : ℕ → Type 0
IsByte b = b < 256

-- The bytes of the low `8 * w` bits of `v`, lowest first.
unfoldable pub le_bytes : ℕ → ℕ → List ℕ
le_bytes zero v = []
le_bytes (suc w) v = (v % 256) ∷ le_bytes w (v / 256)

unfoldable pub of_le : List ℕ → ℕ
of_le [] = 0
of_le (b ∷ bs) = b + 256 * of_le bs

unfoldable pub bswap : ℕ → ℕ → ℕ
unfolding le_bytes of_le
bswap w v = of_le (reverse (le_bytes w v))

-- What a store of a `w`-byte integer leaves in memory, and what a load makes of the bytes.
unfoldable pub word_bytes : Bool → ℕ → ℕ → List ℕ
unfolding bswap
word_bytes be w v = le_bytes w (if be then bswap w v else v)

unfoldable pub word_of : Bool → ℕ → List ℕ → ℕ
unfolding bswap
word_of be w bs = if be then bswap w (of_le bs) else of_le bs

-- size_t a - b.
abbrev pub sub_size : ℕ → ℕ → ℕ
sub_size a b = (a % 2 ^ 64 + 2 ^ 64 - b % 2 ^ 64) % 2 ^ 64

pub length-le_bytes : (w v : ℕ) → length (le_bytes w v) ≡ w
unfolding le_bytes
length-le_bytes zero v = refl
length-le_bytes (suc w) v = ap suc (length-le_bytes w (v / 256))

pub le_bytes-IsByte : (w v : ℕ) → All IsByte (le_bytes w v)
unfolding le_bytes
le_bytes-IsByte zero v = tt
le_bytes-IsByte (suc w) v = (omega arith, le_bytes-IsByte w (v / 256))

-- The range of a `w`-byte integer.
unfoldable pub bound : ℕ → ℕ
bound zero = 1
bound (suc w) = 256 * bound w

pub of_le-le_bytes : (w v : ℕ) → v < bound w → of_le (le_bytes w v) ≡ v
unfolding le_bytes of_le bound
of_le-le_bytes zero v h = omega arith
of_le-le_bytes (suc w) v h = omega (arith, of_le-le_bytes w (v / 256) (omega arith))

pub of_le-lt : (bs : List ℕ) → All IsByte bs → of_le bs < bound (length bs)
unfolding of_le bound
of_le-lt [] h = omega arith
of_le-lt (b ∷ bs) (hb, hbs) = omega (arith, of_le-lt bs hbs)

le_bytes-of_le_at : (bs : List ℕ) → All IsByte bs → le_bytes (length bs) (of_le bs) ≡ bs
unfolding le_bytes of_le
le_bytes-of_le_at [] h = refl
le_bytes-of_le_at (b ∷ bs) (hb, hbs) =
    let low : (b + 256 * of_le bs) % 256 ≡ b = omega arith in
    let high : (b + 256 * of_le bs) / 256 ≡ of_le bs = omega arith in
    rw (low, high, le_bytes-of_le_at bs hbs)

pub le_bytes-of_le :
    (w : ℕ) (bs : List ℕ) → length bs ≡ w → All IsByte bs → le_bytes w (of_le bs) ≡ bs
le_bytes-of_le w bs e h = rw (← e) (le_bytes-of_le_at bs h)

length-swapped : (w v : ℕ) → length (reverse (le_bytes w v)) ≡ w
length-swapped w v = length-reverse (le_bytes w v) ∙ length-le_bytes w v

-- The big-endian bytes of a word are its little-endian bytes backwards.
pub le_bytes-bswap : (w v : ℕ) → le_bytes w (bswap w v) ≡ reverse (le_bytes w v)
unfolding bswap
le_bytes-bswap w v =
    le_bytes-of_le w (reverse (le_bytes w v)) (length-swapped w v)
      (All-reverse IsByte (le_bytes w v) (le_bytes-IsByte w v))

pub length-word_bytes : (be : Bool) (w v : ℕ) → length (word_bytes be w v) ≡ w
unfolding word_bytes
length-word_bytes be w v = length-le_bytes w (if be then bswap w v else v)

pub word_bytes-IsByte : (be : Bool) (w v : ℕ) → All IsByte (word_bytes be w v)
unfolding word_bytes
word_bytes-IsByte be w v = le_bytes-IsByte w (if be then bswap w v else v)

-- A load reads back what a store of the same byte order wrote.
pub word_of-word_bytes : (be : Bool) (w v : ℕ) → v < bound w → word_of be w (word_bytes be w v) ≡ v
unfolding word_of word_bytes bswap
word_of-word_bytes false w v h = of_le-le_bytes w v h
word_of-word_bytes true w v h =
    rw
      (le_bytes-of_le w (reverse (le_bytes w v)) (length-swapped w v)
        (All-reverse IsByte (le_bytes w v) (le_bytes-IsByte w v)))
      (rw
        (le_bytes-of_le w (reverse (le_bytes w v)) (length-swapped w v)
          (All-reverse IsByte (le_bytes w v) (le_bytes-IsByte w v)))
        (rw reverse-reverse (of_le-le_bytes w v h)))
