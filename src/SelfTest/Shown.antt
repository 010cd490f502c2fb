-- ===== src/SelfTest/Shown.antt =====
-- What a test shows of a message: a table of its bytes, and one of the bytes of what arrived.
use csae.Prelude.{ℕ, ◌≡◌, refl, some, List, [], ◌∷◌, ◌++◌, length, Run, ok}
use csae.Message.Print.Laws.{Row, render, Table}
use csae.Packer.{AnyMessage, header, inh, inh_res, state, state2, Storage, notify}
use csae.Packer.Sendable.{IsSendable, as_received, pack_any-wire_of, unpack-wire}
use csae.SelfTest.{print_line, packer_handler, split_line, run_test}
use csae.Packer.Print.Table.{
  IsPrintable, shown, print_any-IsTable, received-IsSendable, received-IsPrintable,
}

notify-print_line :
    (m : AnyMessage) (r : Run (List ℕ))
    → IsPrintable m
    → notify (some packer_handler) m r ≡ print_line m r
unfolding notify packer_handler
notify-print_line (header m) r p = refl
notify-print_line (inh m) r p = refl
notify-print_line (inh_res m) r p = refl
notify-print_line (state m) r p = refl
notify-print_line (state2 m) r p = elim p [ ]

-- What stands in the stream behind `os`, for the two tables.
abbrev pub transcript : List ℕ → List Row → List Row → List ℕ
transcript os rows rows' =
    let first = (os ++ (10 ∷ (split_line ++ (10 ∷ 10 ∷ [])))) ++ render rows in
    let second = (first ++ (10 ∷ 10 ∷ [])) ++ render rows' in
    (second ++ (10 ∷ [])) ++ (split_line ++ (10 ∷ []))

module _ (stack : ℕ → List ℕ) (room : (n : ℕ) → length (stack n) ≡ n) (raw : Storage) where
  -- The test of a sendable message returns and, whatever the stream holds before, prints between two
  -- split lines a table of that message, and behind an empty line a table of the message that
  -- arrives, a VEH2CLOUD_INH with its first version in the place of the other two. This holds for the
  -- classes that the handler prints, texts of less than 128 bytes, and a message id of bytes.
  pub run_test-shown :
      (os : List ℕ) (m : AnyMessage)
      → IsSendable m
      → IsPrintable m
      → (rows : List Row) × (rows' : List Row) × (run_test stack raw os m
          ≡ ok (transcript os rows rows'))
        × Table 0 rows (shown m)
        × Table 0 rows' (shown (as_received m))
  unfolding run_test print_line
  run_test-shown os m v p =
      let received = as_received m in
      let opening : List ℕ = os ++ (10 ∷ (split_line ++ (10 ∷ 10 ∷ []))) in
      let (rows, e, t) = print_any-IsTable opening m v p in
      let between : List ℕ = (opening ++ render rows) ++ (10 ∷ 10 ∷ []) in
      let printable = received-IsPrintable m p in
      let (rows', e', t') =
        print_any-IsTable between received (received-IsSendable m v) printable in
      (
        rows,
        rows',
        rw (
          e,
          pack_any-wire_of stack room m v,
          unpack-wire raw (some packer_handler) (ok between) m v,
          notify-print_line received (ok between) printable,
          e',
        ),
        t,
        t',
      )
