-- ===== src/Tests/Buffers.antt =====
-- print_buffer at a concrete buffer.
use csae.Prelude.{
  ℕ, ◌≡◌, refl, true, some, List, [], ◌∷◌, ◌++◌, arith, length, replicate, length-replicate, ok,
}
use csae.Message.Print.{utf8, decimal}
use csae.Util.PrintBuffer.{opening, print_buffer}
use csae.Util.PrintBuffer.Fits.{spaced, print_buffer-fits}

abbrev stack : ℕ → List ℕ
stack n = replicate n 0xcd

room : (n : ℕ) → length (stack n) ≡ n
room n = length-replicate n 0xcd

print_buffer-fits_example :
    print_buffer true stack (utf8 "CSAE295") 12 (some ((0xf2 ∷ 0x05 ∷ []) ++ (7 ∷ []))) 2
    ≡ ok (some ((opening (utf8 "CSAE295") 12 2 ++ spaced (0xf2 ∷ 0x05 ∷ [])) ++ (10 ∷ [])))
print_buffer-fits_example =
    print_buffer-fits stack room (utf8 "CSAE295") 12 (0xf2 ∷ 0x05 ∷ []) (7 ∷ []) (omega arith)
      (omega arith) (omega arith)

logged :
    (opening (utf8 "CSAE295") 12 2 ++ spaced (0xf2 ∷ 0x05 ∷ [])) ++ (10 ∷ [])
    ≡ utf8 "CSAE295(0xC,2): F2 05 \n"
unfolding opening spaced decimal
logged = refl
