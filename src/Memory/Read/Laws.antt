-- ===== src/Memory/Read/Laws.antt =====
-- What a reader makes of memory that holds known bytes at its offset.
use csae.Prelude.{
  ℕ, ◌+◌, ◌^◌, ◌<◌, ◌≡◌, refl, ◌∙◌, Bool, false, some, List, [], ◌∷◌, ◌++◌, append_assoc, arith,
  length, length-append, ok,
}
use csae.Memory.Word.{bound, word_bytes, length-word_bytes, word_of-word_bytes}
use csae.Memory.Read.{Reader, ◌>>=◌, done, front, slice, get_bytes, get_word, get_byte}
use native.Mathlib.Nat.{add_assoc, add-zero}

-- Where `buf + offset` points to `bs`, whatever stands before and behind, `r` gives `a` and stops
-- behind `bs`.
pub record Reads {A : Type 0} (r : Reader A) (bs : List ℕ) (a : A) : Type 0 where
  pub apply :
      (pre post : List ℕ) → r (pre ++ (bs ++ post)) (length pre) ≡ ok (a, length pre + length bs)

front-append : (bs post : List ℕ) → front (length bs) (bs ++ post) ≡ some bs
unfolding front
front-append [] post = refl
front-append (b ∷ bs) post = rw (front-append bs post)

slice-append :
    (pre bs post : List ℕ) → slice (length pre) (length bs) (pre ++ (bs ++ post)) ≡ some bs
unfolding slice
slice-append [] bs post = front-append bs post
slice-append (x ∷ pre) bs post = slice-append pre bs post

pub done-Reads : {A : Type 0} (a : A) → Reads (done a) [] a
unfolding done
done-Reads a = record { apply = λ pre post. rw add-zero }

pub get_bytes-Reads : (n : ℕ) (bs : List ℕ) → length bs ≡ n → Reads (get_bytes n) bs bs
unfolding get_bytes
get_bytes-Reads n bs e = record {
  apply = λ pre post. rw (← e) (rw (get_bytes, slice-append pre bs post));
}

pub bind-Reads :
    {A B : Type 0} {r : Reader A} (f : A → Reader B) {bs cs : List ℕ} {a : A} {b : B}
    → Reads r bs a
    → Reads (f a) cs b
    → Reads (r >>= f) (bs ++ cs) b
unfolding ◌>>=◌
bind-Reads f {bs} {cs} hr hf = record {
  apply = λ pre post.
      rw (append_assoc bs cs post, hr.apply pre (cs ++ post), ← append_assoc pre bs (cs ++ post))
        (rw (← length-append pre bs)
          (hf.apply (pre ++ bs) post ∙ rw (length-append, length-append, add_assoc)));
}

pub get_word-Reads :
    (be : Bool) (w v : ℕ) → v < bound w → Reads (get_word be w) (word_bytes be w v) v
unfolding get_word
get_word-Reads be w v h = record {
  apply = λ pre post.
      rw ((get_bytes-Reads w (word_bytes be w v) (length-word_bytes be w v)).apply pre post)
        (rw (word_of-word_bytes be w v h));
}

pub get_byte-Reads : (v : ℕ) → v < 256 → Reads get_byte (word_bytes false 1 v) v
unfolding get_byte bound
get_byte-Reads v h = get_word-Reads false 1 v (omega arith)

pub get_byte_at-Reads : (v w : ℕ) → v ≡ w → v < 256 → Reads get_byte (word_bytes false 1 w) v
get_byte_at-Reads v w e h = rw (← e) (get_byte-Reads v h)

pub get_u16-Reads : (be : Bool) (v : ℕ) → v < 2 ^ 16 → Reads (get_word be 2) (word_bytes be 2 v) v
unfolding bound
get_u16-Reads be v h = get_word-Reads be 2 v (omega arith)

pub get_u32-Reads : (be : Bool) (v : ℕ) → v < 2 ^ 32 → Reads (get_word be 4) (word_bytes be 4 v) v
unfolding bound
get_u32-Reads be v h = get_word-Reads be 4 v (omega arith)

pub get_u64-Reads : (be : Bool) (v : ℕ) → v < 2 ^ 64 → Reads (get_word be 8) (word_bytes be 8 v) v
unfolding bound
get_u64-Reads be v h = get_word-Reads be 8 v (omega arith)

-- A last read, whose value goes into the result.
pub map-Reads :
    {A B : Type 0} {r : Reader A} (g : A → B) {bs : List ℕ} {a : A}
    → Reads r bs a
    → Reads (r >>= λ x. done (g x)) bs (g a)
unfolding ◌>>=◌ done
map-Reads g hr = record { apply = λ pre post. rw (hr.apply pre post) }
