-- ===== src/Tests/SelfTest.antt =====
-- The test program at fixed times.
use csae.Prelude.{ℕ, ◌≡◌, refl, inl, List, arith, length, replicate, length-replicate, ok}
use csae.Message.Print.{utf8}
use csae.Message.Print.Laws.{Row, Table}
use csae.Packer.{header}
use csae.Packer.Sendable.{as_received}
use csae.SelfTest.{run_test, run_tests, test_messages}
use csae.SelfTest.Shown.{transcript, run_test-shown}
use csae.Packer.Print.Table.{shown}
use csae.SelfTest.Messages.{run_tests-Returns}
use csae.Tests.Handshake.{heartbeat_header, heartbeat_header-IsValid}
use csae.Tests.Receiver.{raw_storage}

-- The array on the stack, with the bytes 0xcd in it.
abbrev stack : ℕ → List ℕ
stack n = replicate n 0xcd

room : (n : ℕ) → length (stack n) ≡ n
room n = length-replicate n 0xcd

run_test-shown_example :
    (rows : List Row) × (rows' : List Row) × (run_test stack raw_storage
        (utf8 ">")
        (header heartbeat_header)
      ≡ ok (transcript (utf8 ">") rows rows'))
    × Table 0 rows (shown (header heartbeat_header))
    × Table 0 rows' (shown (as_received (header heartbeat_header)))
run_test-shown_example =
    run_test-shown stack room raw_storage (utf8 ">") (header heartbeat_header)
      (heartbeat_header-IsValid, inl (record { id_is = refl; type_is = refl; len_is = refl })) tt

run_tests-Returns_example :
    (os' : List ℕ) × (run_tests stack raw_storage (utf8 "CSAE295 Test Begin") (
        test_messages
          (replicate 8 0xcd)
          1612137600000
          1612137600001
          1612137600002
          1612137600003
          1612137600004)
      ≡ ok os')
run_tests-Returns_example =
    run_tests-Returns stack room raw_storage (replicate 8 0xcd) refl 1612137600000 1612137600001
      1612137600002 1612137600003 1612137600004 (omega arith) (omega arith) (omega arith)
      (omega arith) (omega arith) (utf8 "CSAE295 Test Begin")
