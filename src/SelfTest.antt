-- ===== src/SelfTest.antt =====
-- test/packer_handler.h and test/test.h: each message is printed, packed and unpacked, and the
-- handler prints what it is handed.
pub mod Shown
pub mod Messages
use csae.Prelude.{
  ℕ, ◌+◌, ◌*◌, ◌≡◌, ◌⊎◌, true, Option, none, some, List, [], ◌∷◌, ◌++◌, length, replicate, Run, ok,
  bind,
}
use csae.Message.Header.{
  MessageHeader, new_header, heartbeat, heartbeat_res, version_01, ctrl_priority_7,
}
use csae.Message.Print.{utf8}
use csae.Message.Inh.{new_inh}
use csae.Message.InhRes.{new_inh_res}
use csae.Message.State.{new_state}
use csae.Packer.{AnyMessage, header, inh, inh_res, state, state2, Handler, Storage, unpack}
use csae.Packer.Print.{print_any}
use csae.Packer.Sendable.{pack_any}
use csae.Example.{comm_type_4g, time_sync_gnss, gnss_type_gcj02}

-- `std::cout << _msg << std::endl`.
unfoldable pub print_line : AnyMessage → Run (List ℕ) → Run (List ℕ)
unfolding print_any
print_line m r = bind r λ os. bind (print_any os m) λ os'. ok (os' ++ (10 ∷ []))

-- PackerHandler. Its state is what `std::cout` has got; it has no method for version 2.
unfoldable pub packer_handler : Handler (Run (List ℕ))
unfolding print_line
packer_handler = record {
  on_header = λ m r. print_line (header m) r;
  on_inh = λ m r. print_line (inh m) r;
  on_inh_res = λ m r. print_line (inh_res m) r;
  on_state = λ m r. print_line (state m) r;
  on_state2 = λ m r. r;
}

-- SPLIT_LINE.
abbrev pub split_line : List ℕ
split_line = replicate 60 61

-- `Test::run`, built without _UDEBUG, so that print_buffer does nothing.
unfoldable pub run_test : (ℕ → List ℕ) → Storage → List ℕ → AnyMessage → Run (List ℕ)
unfolding packer_handler print_any pack_any unpack
run_test stack raw os m = bind (print_any (os ++ (10 ∷ (split_line ++ (10 ∷ 10 ∷ [])))) m) λ os'.
    bind (pack_any stack m) λ buf.
      bind (unpack raw (some buf.bytes) buf.size (some packer_handler) (ok (os' ++ (10 ∷ 10 ∷ []))))
        λ r. bind r.1 λ os''. ok (os'' ++ (split_line ++ (10 ∷ [])))

-- The messages that `Test::test` makes, at the times that the clock shows; `res_storage` is the
-- memory of the result's vehicle id.
unfoldable pub test_messages : List ℕ → ℕ → ℕ → ℕ → ℕ → ℕ → List AnyMessage
unfolding new_header new_inh new_inh_res new_state
test_messages res_storage t1 t2 t3 t4 t5 =
    header (new_header 0 heartbeat version_01 t1 ctrl_priority_7)
    ∷ header (new_header 0 heartbeat_res version_01 t2 ctrl_priority_7)
    ∷ inh (
        new_inh version_01 t3 ctrl_priority_7 (utf8 "Q1001") (utf8 "sw_v1.0") (utf8 "hw_v1.0")
          (utf8 "ad_v1.0") comm_type_4g 15 time_sync_gnss gnss_type_gcj02 (utf8 "VEH2CLOUD_INH"))
    ∷ inh_res (new_inh_res res_storage version_01 t4 ctrl_priority_7 (utf8 "Q1001") 0)
    ∷ state (
        new_state version_01 t5 ctrl_priority_7 (utf8 "Q1001") (1 ∷ []) t5 4000
          (record { longitude = 90; latitude = 90; elevation = 700 }) 100000 31 200000 4100 500 400
          300 200 500 3000 50000 1 500 20000 1000 1 (record { longitude = 80; latitude = 80 }) [])
    ∷ []

-- `main`: what the tests put in `std::cout`.
unfoldable pub run_tests : (ℕ → List ℕ) → Storage → List ℕ → List AnyMessage → Run (List ℕ)
unfolding run_test
run_tests stack raw os [] = ok os
run_tests stack raw os (m ∷ ms) = bind (run_test stack raw os m) (λ os'. run_tests stack raw os' ms)
