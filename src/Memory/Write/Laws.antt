-- ===== src/Memory/Write/Laws.antt =====
-- What a writer leaves in memory, and exactly when it leaves the bounds of its buffer.
use csae.Prelude.{
  ℕ, zero, suc, ◌+◌, ◌≤◌, ◌<◌, ◌≡◌, refl, ap, Bool, false, inl, inr, List, [], ◌∷◌, ◌++◌, arith,
  length, length-append, take, drop, leb, le→leb, lt→leb, leb→le, leb→lt, if◌then◌else◌, Bool-cases,
  Run, ok, fault, bind,
}
use csae.Memory.Word.{word_bytes}
use csae.Memory.Write.{
  Writer, ◌>>◌, skip, put_front, splice, put_bytes, put_word, put_copy, put_byte, out_of_bounds,
}
use native.Mathlib.Nat.{add_assoc, add-zero, suc-add, zero-add}

-- From an offset within the buffer `w` puts the bytes `bs` there and stops behind them, and it
-- faults exactly if the buffer ends before.
pub record Writes (w : Writer) (bs : List ℕ) : Type 0 where
  pub apply :
      (buf : List ℕ) (offset : ℕ)
      → offset ≤ length buf
      → w buf offset ≡ (
          if leb (offset + length bs) (length buf)
          then ok (splice offset bs buf, offset + length bs)
          else fault)

length-put_front :
    (bs buf : List ℕ) → length bs ≤ length buf → length (put_front bs buf) ≡ length buf
unfolding put_front
length-put_front [] buf h = refl
length-put_front (b ∷ bs) [] h = elim h [ ]
length-put_front (b ∷ bs) (x ∷ buf) h = ap suc (length-put_front bs buf (omega arith))

pub length-splice :
    (offset : ℕ) (bs buf : List ℕ)
    → offset + length bs ≤ length buf
    → length (splice offset bs buf) ≡ length buf
unfolding splice
length-splice zero bs buf h = length-put_front bs buf (omega arith)
length-splice (suc offset) bs [] h = absurd (omega arith)
length-splice (suc offset) bs (x ∷ buf) h = ap suc (length-splice offset bs buf (omega arith))

pub put_front-nil : (offset : ℕ) (buf : List ℕ) → splice offset [] buf ≡ buf
unfolding splice
put_front-nil zero buf = unfold put_front in refl
put_front-nil (suc offset) [] = refl
put_front-nil (suc offset) (x ∷ buf) = ap (◌∷◌ x) (put_front-nil offset buf)

splice-put_front :
    (bs cs buf : List ℕ)
    → length bs ≤ length buf
    → splice (length bs) cs (put_front bs buf) ≡ put_front (bs ++ cs) buf
unfolding splice put_front
splice-put_front [] cs buf h = refl
splice-put_front (b ∷ bs) cs [] h = elim h [ ]
splice-put_front (b ∷ bs) cs (x ∷ buf) h = ap (◌∷◌ b) (splice-put_front bs cs buf (omega arith))

-- What is written at the start stands at the start.
pub put_front-prefix :
    (bs buf : List ℕ) → length bs ≤ length buf → (rest : List ℕ) × (put_front bs buf ≡ bs ++ rest)
unfolding put_front
put_front-prefix [] buf h = (buf, refl)
put_front-prefix (b ∷ bs) [] h = absurd (omega arith)
put_front-prefix (b ∷ bs) (x ∷ buf) h =
    let (rest, e) = put_front-prefix bs buf (omega arith) in (rest, rw e)

-- The rest stays.
pub put_front-drop :
    (bs buf : List ℕ) → length bs ≤ length buf → put_front bs buf ≡ bs ++ drop (length bs) buf
unfolding put_front
put_front-drop [] buf h = refl
put_front-drop (b ∷ bs) [] h = absurd (omega arith)
put_front-drop (b ∷ bs) (x ∷ buf) h = ap (◌∷◌ b) (put_front-drop bs buf (omega arith))

-- Two writes in a row are one write of both.
pub splice-splice :
    (offset : ℕ) (bs cs buf : List ℕ)
    → offset + length bs ≤ length buf
    → splice (offset + length bs) cs (splice offset bs buf) ≡ splice offset (bs ++ cs) buf
unfolding splice
splice-splice zero bs cs buf h = rw zero-add (splice-put_front bs cs buf (omega arith))
splice-splice (suc offset) bs cs [] h = absurd (omega arith)
splice-splice (suc offset) bs cs (x ∷ buf) h =
    rw suc-add (ap (◌∷◌ x) (splice-splice offset bs cs buf (omega arith)))

pub skip-Writes : Writes skip []
unfolding skip
skip-Writes = record {
  apply = λ buf offset h. rw (add-zero, le→leb offset (length buf) h, put_front-nil offset buf);
}

pub put_bytes-Writes : (bs : List ℕ) → Writes (put_bytes bs) bs
unfolding put_bytes
put_bytes-Writes bs = record { apply = λ buf offset h. refl }

pub put_word-Writes : (be : Bool) (w v : ℕ) → Writes (put_word be w v) (word_bytes be w v)
unfolding put_word
put_word-Writes be w v = put_bytes-Writes (word_bytes be w v)

pub put_byte-Writes : (v : ℕ) → Writes (put_byte v) (word_bytes false 1 v)
unfolding put_byte
put_byte-Writes v = put_word-Writes false 1 v

pub put_copy-Writes : (src : List ℕ) (n : ℕ) → n ≤ length src → Writes (put_copy src n) (take n src)
unfolding put_copy
put_copy-Writes src n h = rw (le→leb n (length src) h) (put_bytes-Writes (take n src))

pub seq-Writes :
    {v w : Writer} {bs cs : List ℕ} → Writes v bs → Writes w cs → Writes (v >> w) (bs ++ cs)
unfolding ◌>>◌
seq-Writes {w} {bs} {cs} hv hw = record {
  apply = λ buf offset p. elim (Bool-cases (leb (offset + length bs) (length buf))) [
    | inl fits ↦
        let le : offset + length bs ≤ length buf = leb→le (offset + length bs) (length buf) fits in
        rw (hv.apply buf offset p, fits)
          (rw
            (hw.apply (splice offset bs buf) (offset + length bs)
              (rw (length-splice offset bs buf le) le))
            (rw (length-splice offset bs buf le, splice-splice offset bs cs buf le)
              (rw (length-append, add_assoc))))
    | inr over ↦
        let past : length buf < offset + length (bs ++ cs) =
          rw length-append (omega (arith, leb→lt (offset + length bs) (length buf) over)) in
        rw (hv.apply buf offset p, over)
          (rw (lt→leb (offset + length (bs ++ cs)) (length buf) past))
  ];
}

-- `w` faults, whatever the buffer.
pub record Stops (w : Writer) : Type 0 where
  pub apply : (buf : List ℕ) (offset : ℕ) → w buf offset ≡ fault

pub first-Stops : {v : Writer} (w : Writer) → Stops v → Stops (v >> w)
unfolding ◌>>◌
first-Stops w h = record { apply = λ buf offset. rw (h.apply buf offset) }

pub then-Stops : (v : Writer) {w : Writer} → Stops w → Stops (v >> w)
unfolding ◌>>◌
then-Stops v {w} h = record { apply = λ buf offset. go (v buf offset) }
  where
    go : (r : Run (List ℕ × ℕ)) → bind r (λ p. w p.0 p.1) ≡ fault
    go (ok p) = h.apply p.0 p.1
    go fault = refl

pub put_copy-Stops : (src : List ℕ) (n : ℕ) → length src < n → Stops (put_copy src n)
unfolding put_copy out_of_bounds
put_copy-Stops src n h = record { apply = λ buf offset. rw (put_copy, lt→leb n (length src) h) }
