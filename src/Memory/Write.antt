-- ===== src/Memory/Write.antt =====
-- Writing through a pointer that moves on: `*(T*)(buf + offset) = value; offset += sizeof(value)`.
-- A writer takes the memory that `buf` points to and the offset, and returns both anew.
pub mod Laws
use csae.Prelude.{
  ℕ, zero, suc, ◌+◌, Bool, false, List, [], ◌∷◌, length, take, leb, if◌then◌else◌, Run, ok, fault,
  bind,
}
use csae.Memory.Word.{word_bytes}

abbrev pub Writer : Type 0
Writer = List ℕ → ℕ → Run (List ℕ × ℕ)

infixl 5 ◌>>◌
unfoldable pub ◌>>◌ : Writer → Writer → Writer
◌>>◌ v w buf offset = bind (v buf offset) (λ p. w p.0 p.1)

unfoldable pub skip : Writer
skip buf offset = ok (buf, offset)

unfoldable pub out_of_bounds : Writer
out_of_bounds buf offset = fault

-- `buf` with the bytes `bs` over those from `offset` on.
unfoldable pub put_front : List ℕ → List ℕ → List ℕ
put_front [] buf = buf
put_front (b ∷ bs) [] = []
put_front (b ∷ bs) (x ∷ buf) = b ∷ put_front bs buf

unfoldable pub splice : ℕ → List ℕ → List ℕ → List ℕ
unfolding put_front
splice zero bs buf = put_front bs buf
splice (suc offset) bs [] = []
splice (suc offset) bs (x ∷ buf) = x ∷ splice offset bs buf

-- memcpy(buf + offset, bs, n) for the `n` bytes `bs`.
unfoldable pub put_bytes : List ℕ → Writer
unfolding splice
put_bytes bs buf offset =
    if leb (offset + length bs) (length buf)
    then ok (splice offset bs buf, offset + length bs)
    else fault

-- *(uintN_t*)(buf + offset) = value, byte-swapped if `be`.
unfoldable pub put_word : Bool → ℕ → ℕ → Writer
unfolding put_bytes word_bytes
put_word be w v = put_bytes (word_bytes be w v)

-- memcpy(buf + offset, src, n) out of another object: a fault if that has fewer than `n` bytes.
unfoldable pub put_copy : List ℕ → ℕ → Writer
unfolding put_bytes out_of_bounds
put_copy src n = if leb n (length src) then put_bytes (take n src) else out_of_bounds

-- *(uint8_t*)(buf + offset) = value.
unfoldable pub put_byte : ℕ → Writer
unfolding put_word
put_byte v = put_word false 1 v
