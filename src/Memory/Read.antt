-- ===== src/Memory/Read.antt =====
-- Reading through a pointer that moves on: `value = *(T*)(buf + offset); offset += sizeof(value)`.
-- A reader takes the memory that `buf` points to and the offset.
pub mod Laws
pub mod Safe
use csae.Prelude.{
  ℕ, zero, suc, ◌+◌, Bool, false, Option, none, some, List, [], ◌∷◌, Run, ok, fault, bind,
}
use mathlib.Core.Option
use csae.Memory.Word.{word_of}

abbrev pub Reader : Type 0 → Type 0
Reader A = List ℕ → ℕ → Run (A × ℕ)

infixl 5 ◌>>=◌
unfoldable pub ◌>>=◌ : {A B : Type 0} → Reader A → (A → Reader B) → Reader B
◌>>=◌ r f buf offset = bind (r buf offset) (λ p. f p.0 buf p.1)

unfoldable pub done : {A : Type 0} → A → Reader A
done a buf offset = ok (a, offset)

-- An access outside an object.
unfoldable pub outside : {A : Type 0} → Reader A
outside buf offset = fault

-- The `n` bytes of `buf` from `offset` on, if it has them.
unfoldable pub front : ℕ → List ℕ → Option (List ℕ)
front zero xs = some []
front (suc n) [] = none
front (suc n) (x ∷ xs) = Option.map (◌∷◌ x) (front n xs)

unfoldable pub slice : ℕ → ℕ → List ℕ → Option (List ℕ)
unfolding front
slice zero n buf = front n buf
slice (suc offset) n [] = none
slice (suc offset) n (x ∷ buf) = slice offset n buf

-- memcpy(…, buf + offset, n), and std::string((char*)buf + offset, n).
unfoldable pub get_bytes : ℕ → Reader (List ℕ)
unfolding slice
get_bytes n buf offset = elim (slice offset n buf) [ none ↦ fault | some bs ↦ ok (bs, offset + n) ]

-- *(uintN_t*)(buf + offset), byte-swapped if `be`.
unfoldable pub get_word : Bool → ℕ → Reader ℕ
unfolding get_bytes word_of ◌>>=◌ done
get_word be w = get_bytes w >>= λ bs. done (word_of be w bs)

-- *(uint8_t*)(buf + offset).
unfoldable pub get_byte : Reader ℕ
unfolding get_word
get_byte = get_word false 1
