-- ===== src/Memory/Buffer.antt =====
-- A `void *_buf` argument: a null pointer, or a pointer to the first byte of an object. A derived
-- message calls its base's function first and goes on at the offset that this returned.
pub mod Laws
use csae.Prelude.{ℕ, Option, none, some, List, ltb, if◌then◌else◌, Run, bind, ok, fault}
use csae.Memory.Word.{sub_size}
use csae.Memory.Read.{Reader}
use csae.Memory.Write.{Writer}

abbrev pub Buffer : Type 0
Buffer = Option (List ℕ)

-- The memory and the offset that a writer leaves, behind the pointer that the caller holds.
abbrev pub keep : Run (List ℕ × ℕ) → Run (Buffer × ℕ)
keep r = bind r (λ p. ok (some p.0, p.1))

-- `if (_size - offset < len) return offset;`, and the writes that follow, which a null pointer does
-- not survive.
unfoldable pub put_behind : Writer → ℕ → ℕ → Buffer → ℕ → Run (Buffer × ℕ)
put_behind w size len none offset =
    if ltb (sub_size size offset) len then ok (none, offset) else fault
put_behind w size len (some buf) offset =
    if ltb (sub_size size offset) len then ok (some buf, offset) else keep (w buf offset)

-- The same for reads: `m` is the message as the base's function left it.
unfoldable pub get_behind : {A : Type 0} → A → Reader A → ℕ → ℕ → Buffer → ℕ → Run (A × ℕ)
get_behind m r size len none offset =
    if ltb (sub_size size offset) len then ok (m, offset) else fault
get_behind m r size len (some buf) offset =
    if ltb (sub_size size offset) len then ok (m, offset) else r buf offset
