-- ===== src/Memory/Buffer/Laws.antt =====
-- A base's bytes and the derived message's bytes are written, and read, as one run.
use csae.Prelude.{
  ℕ, ◌+◌, ◌-◌, ◌^◌, ◌≤◌, ◌<◌, ◌≡◌, ◌∙◌, false, inl, inr, some, List, [], ◌++◌, append_assoc, arith,
  length, length-append, ltb, leb, if◌then◌else◌, le→ltb, lt→ltb, Bool-cases, bind, ok, fault,
}
use csae.Memory.Word.{sub_size}
use csae.Memory.Read.{Reader}
use csae.Memory.Read.Laws.{Reads}
use csae.Memory.Write.{Writer, ◌>>◌, splice}
use csae.Memory.Write.Laws.{Writes, Stops, then-Stops}
use csae.Memory.Buffer.{keep, put_behind, get_behind}
use native.Mathlib.Nat.{zero-add}

pub sub_size_lem : (a b : ℕ) → b ≤ a → a < 2 ^ 64 → sub_size a b ≡ a - b
sub_size_lem a b h k = omega arith

-- Behind `offset` bytes there is room for `len` more.
pub room :
    (size offset len : ℕ)
    → offset + len ≤ size
    → size < 2 ^ 64
    → ltb (sub_size size offset) len ≡ false
room size offset len h k = le→ltb (sub_size size offset) len (omega arith)

pub put_behind-Writes :
    {v : Writer} {bs : List ℕ} (w : Writer) (buf : List ℕ) (size len : ℕ)
    → Writes v bs
    → length bs + len ≤ size
    → size < 2 ^ 64
    → bind (keep (v buf 0)) (λ p. put_behind w size len p.0 p.1) ≡ keep ((v >> w) buf 0)
unfolding put_behind ◌>>◌
put_behind-Writes {bs} w buf size len hv h k =
    elim (Bool-cases (leb (0 + length bs) (length buf))) [
      | inl fits ↦
          rw (hv.apply buf 0 (omega arith), fits)
            (rw (room size (0 + length bs) len (omega arith) k))
      | inr over ↦ rw (hv.apply buf 0 (omega arith), over)
    ]

-- Too little room is left behind the base's bytes: they are all that is written.
pub put_behind-short :
    {v : Writer} {bs : List ℕ} (w : Writer) (buf : List ℕ) (size len : ℕ)
    → Writes v bs
    → length bs ≤ size
    → size < length bs + len
    → size < 2 ^ 64
    → bind (keep (v buf 0)) (λ p. put_behind w size len p.0 p.1)
      ≡ (if leb (length bs) (length buf) then ok (some (splice 0 bs buf), length bs) else fault)
unfolding put_behind
put_behind-short {bs} w buf size len hv le over k =
    elim (Bool-cases (leb (length bs) (length buf))) [
      | inl fits ↦
          rw (hv.apply buf 0 (omega arith), zero-add, fits)
            (rw (lt→ltb (sub_size size (length bs)) len (omega arith)))
      | inr past ↦ rw (hv.apply buf 0 (omega arith), zero-add, past)
    ]

-- The writes that follow the base's fault.
pub put_behind-Stops :
    {v w : Writer} {bs : List ℕ} (buf : List ℕ) (size len : ℕ)
    → Writes v bs
    → Stops w
    → length bs + len ≤ size
    → size < 2 ^ 64
    → bind (keep (v buf 0)) (λ p. put_behind w size len p.0 p.1) ≡ fault
put_behind-Stops {v} {w} buf size len hv hw le k =
    put_behind-Writes w buf size len hv le k ∙ rw ((then-Stops v hw).apply buf 0)

-- The whole run of writes, as its caller sees it.
pub keep-Writes :
    {w : Writer} {bs : List ℕ} (buf : List ℕ)
    → Writes w bs
    → keep (w buf 0)
      ≡ (if leb (length bs) (length buf) then ok (some (splice 0 bs buf), length bs) else fault)
keep-Writes {bs} buf hw = elim (Bool-cases (leb (length bs) (length buf))) [
  | inl e ↦ rw (hw.apply buf 0 (omega arith), zero-add, e)
  | inr e ↦ rw (hw.apply buf 0 (omega arith), zero-add, e)
]

-- A base's read and what follows, over memory that starts with the bytes of both.
pub get_behind-Reads :
    {A B : Type 0} {r : Reader A} {bs cs : List ℕ} {a : A} {b : B} (f : A → Reader B) (stop : A → B)
    (len : A → ℕ) (post : List ℕ) (size : ℕ)
    → Reads r bs a
    → Reads (f a) cs b
    → length bs + len a ≤ size
    → size < 2 ^ 64
    → bind
        (r ((bs ++ cs) ++ post) 0)
        (λ p. get_behind (stop p.0) (f p.0) size (len p.0) (some ((bs ++ cs) ++ post)) p.1)
      ≡ ok (b, length (bs ++ cs))
unfolding get_behind
get_behind-Reads {bs} {cs} {a} f stop len post size hr hf h k = rw (append_assoc bs cs post) (
    rw (hr.apply [] (cs ++ post)) (
      rw (room size (0 + length bs) (len a) (omega arith) k)
        (rw (zero-add) (hf.apply bs post ∙ rw length-append))))
