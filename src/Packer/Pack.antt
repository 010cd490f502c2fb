-- ===== src/Packer/Pack.antt =====
-- `pack` over what `to_bytes` writes: enough room gives the bytes, too little is a stack overflow.
use csae.Prelude.{
  ℕ, ◌+◌, ◌%◌, ◌^◌, ◌≤◌, ◌<◌, ◌≡◌, refl, ap, ◌∙◌, true, some, List, [], ◌∷◌, arith, length, take,
  leb, le→leb, lt→leb, if◌then◌else◌, Run, ok, fault,
}
use csae.Memory.Write.{put_front, splice}
use csae.Memory.Write.Laws.{length-splice}
use csae.Memory.Buffer.{Buffer}
use csae.Message.Header.{sizeof_header}
use csae.Packer.{IsMessage, copy_out, pack}

-- `w` writes the bytes `bs` into any buffer that has room for them, and leaves any other.
abbrev pub Fills : (Buffer → Run (Buffer × ℕ)) → List ℕ → Type 0
Fills w bs =
    (buf : List ℕ)
    → w (some buf)
      ≡ (if leb (length bs) (length buf) then ok (some (splice 0 bs buf), length bs) else fault)

take-put_front :
    (bs buf : List ℕ) → length bs ≤ length buf → take (length bs) (put_front bs buf) ≡ bs
unfolding put_front
take-put_front [] buf e = refl
take-put_front (b ∷ bs) [] e = elim e [ ]
take-put_front (b ∷ bs) (x ∷ buf) e = ap (◌∷◌ b) (take-put_front bs buf (omega arith))

take-splice : (bs buf : List ℕ) → length bs ≤ length buf → take (length bs) (splice 0 bs buf) ≡ bs
unfolding splice
take-splice bs buf e = take-put_front bs buf e

module _ {T : Type 0} ⦃t : IsMessage T⦄ (stack : ℕ → List ℕ) (m : T) (bs : List ℕ) where
  abbrev size : ℕ
  size = sizeof_header + t.data_length m

  -- The bytes fit the array.
  pub pack-Fills :
      Fills (λ buf. t.to_bytes m buf size true) bs
      → length (stack size) ≡ size
      → length bs ≤ size
      → length bs < 2 ^ 32
      → pack stack m ≡ ok (record { size = length bs; bytes = bs })
  unfolding pack copy_out
  pack-Fills fills room e small =
      let fits : length bs ≤ length (stack size) = omega arith in
      let word : length bs % 2 ^ 32 ≡ length bs = omega arith in
      rw (fits→ok (fills (stack size)) fits) (
        rw
          (
            length-splice 0 bs (stack size) (omega arith),
            le→leb (length bs) (length (stack size)) fits,
          )
          (rw (take-splice bs (stack size) fits) (rw word)))
    where
      fits→ok :
          t.to_bytes m (some (stack size)) size true ≡ (
            if leb (length bs) (length (stack size))
            then ok (some (splice 0 bs (stack size)), length bs)
            else fault)
          → length bs ≤ length (stack size)
          → t.to_bytes m (some (stack size)) size true
            ≡ ok (some (splice 0 bs (stack size)), length bs)
      fits→ok e h = e ∙ rw (le→leb (length bs) (length (stack size)) h)

  -- The bytes do not fit the array.
  pub pack-overflow :
      Fills (λ buf. t.to_bytes m buf size true) bs
      → length (stack size) ≡ size
      → size < length bs
      → pack stack m ≡ fault
  unfolding pack
  pack-overflow fills room over =
      rw (fills (stack size), lt→leb (length bs) (length (stack size)) (omega arith))

  -- `to_bytes` faults.
  pub pack-fault :
      ((buf : List ℕ) → t.to_bytes m (some buf) size true ≡ fault) → pack stack m ≡ fault
  unfolding pack
  pack-fault stops = rw (stops (stack size))
