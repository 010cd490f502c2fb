-- ===== src/SelfTest/Messages.antt =====
-- The messages of the test program reach the handler, so that the program returns.
use csae.Prelude.{ℕ, ◌^◌, ◌<◌, ◌≡◌, refl, ◌⊎◌, inl, inr, List, [], ◌∷◌, All, arith, length, ok}
use csae.Message.Header.{heartbeat, heartbeat_res, new_header}
use csae.Message.Inh.{new_inh}
use csae.Message.State.{new_state}
use csae.Message.Print.{utf8}
use csae.Packer.{AnyMessage, header, inh, state, Storage}
use csae.Memory.Text.{strncpy}
use csae.Memory.Write.{splice}
use csae.Packer.Constructed.{
  HeaderInRange, new_header-IsValid, new_inh_res-IsValid, new_inh_res-IsFramed, announced-IsValid,
  announced-SameLengths, announced-IsFramed,
}
use csae.Example.{report}
use csae.Example.Messages.{in_range, report-IsValid}
use csae.Packer.Sendable.{IsSendable}
use csae.SelfTest.{run_tests, test_messages}
use csae.SelfTest.Shown.{transcript, run_test-shown}
use csae.Packer.Print.Table.{IsPrintable}

module _ (res_storage : List ℕ) (eight : length res_storage ≡ 8) (t1 t2 t3 t4 t5 : ℕ)
    (h1 : t1 < 2 ^ 64) (h2 : t2 < 2 ^ 64) (h3 : t3 < 2 ^ 64) (h4 : t4 < 2 ^ 64)
    (h5 : t5 < 2 ^ 64) where
  in_time : (t : ℕ) → t < 2 ^ 64 → HeaderInRange 1 t 28
  in_time t h = record {
    version_range = omega arith;
    timestamp_range = h;
    ctrl_range = omega arith;
  }

  heartbeats-IsSendable :
      (t data_type : ℕ)
      → t < 2 ^ 64
      → (data_type ≡ heartbeat) ⊎ (data_type ≡ heartbeat_res)
      → IsSendable (header (new_header 0 data_type 1 t 28))
  unfolding new_header
  heartbeats-IsSendable t data_type h (inl e) = (
    new_header-IsValid 0 data_type 1 t 28 (omega arith) (omega arith) (in_time t h),
    inl (record { id_is = refl; type_is = e; len_is = refl }),
  )
  heartbeats-IsSendable t data_type h (inr e) = (
    new_header-IsValid 0 data_type 1 t 28 (omega arith) (omega arith) (in_time t h),
    inr (record { id_is = refl; type_is = e; len_is = refl }),
  )

  inh-IsSendable : IsSendable (
      inh (
        new_inh 1 t3 28
          (utf8 "Q1001")
          (utf8 "sw_v1.0")
          (utf8 "hw_v1.0")
          (utf8 "ad_v1.0")
          0
          15
          2
          0
          (utf8 "VEH2CLOUD_INH")))
  inh-IsSendable =
      let r = in_time t3 h3 in
      (
        announced-IsValid 1 t3 28 (utf8 "Q1001") (utf8 "sw_v1.0") (utf8 "hw_v1.0") (utf8 "ad_v1.0")
            0 15 2 0 (utf8 "VEH2CLOUD_INH") r in_range,
        announced-SameLengths 1 t3 28 (utf8 "Q1001") (utf8 "sw_v1.0") (utf8 "hw_v1.0")
            (utf8 "ad_v1.0") 0 15 2 0 (utf8 "VEH2CLOUD_INH") r in_range,
        announced-IsFramed 1 t3 28 (utf8 "Q1001") (utf8 "sw_v1.0") (utf8 "hw_v1.0") (utf8 "ad_v1.0")
            0 15 2 0 (utf8 "VEH2CLOUD_INH") r in_range,
      )

  report-IsSendable : IsSendable (state (report t5))
  unfolding report new_state new_header
  report-IsSendable =
      (report-IsValid t5 h5, record { id_is = refl; type_is = refl; len_is = refl }, refl, refl)

  test_messages-IsSendable :
      All (λ m. IsSendable m × IsPrintable m) (test_messages res_storage t1 t2 t3 t4 t5)
  unfolding test_messages report new_inh new_state strncpy splice
  test_messages-IsSendable = (
    (heartbeats-IsSendable t1 heartbeat h1 (inl refl), tt),
    (
      (heartbeats-IsSendable t2 heartbeat_res h2 (inr refl), tt),
      (
        (inh-IsSendable, (omega arith, omega arith)),
        (
          (
            (
              new_inh_res-IsValid res_storage 1 t4 28 (utf8 "Q1001") 0 eight (in_time t4 h4)
                  (omega arith),
              new_inh_res-IsFramed res_storage 1 t4 28 (utf8 "Q1001") 0,
            ),
            tt,
          ),
          ((report-IsSendable, omega arith), tt),
        ),
      ),
    ),
  )

module _ (stack : ℕ → List ℕ) (room : (n : ℕ) → length (stack n) ≡ n) (raw : Storage) where
  run_tests-each :
      (ms : List AnyMessage) (os : List ℕ)
      → All (λ m. IsSendable m × IsPrintable m) ms
      → (os' : List ℕ) × (run_tests stack raw os ms ≡ ok os')
  unfolding run_tests
  run_tests-each [] os v = (os, refl)
  run_tests-each (m ∷ ms) os ((v, p), vs) =
      let (rows, rows', e, t, t') = run_test-shown stack room raw os m v p in
      rw e (run_tests-each ms (transcript os rows rows') vs)

  -- The test program returns: its five messages, at any times of 64 bits that the clock shows, are
  -- printed, packed, unpacked and printed by the handler without touching memory outside an array,
  -- whatever the stack array and the storage held before.
  pub run_tests-Returns :
      (res_storage : List ℕ)
      → length res_storage ≡ 8
      → (t1 t2 t3 t4 t5 : ℕ) → t1 < 2 ^ 64
      → t2 < 2 ^ 64
      → t3 < 2 ^ 64
      → t4 < 2 ^ 64
      → t5 < 2 ^ 64
      → (os : List ℕ)
      → (os' : List ℕ) × (run_tests stack raw os (test_messages res_storage t1 t2 t3 t4 t5)
          ≡ ok os')
  run_tests-Returns res_storage eight t1 t2 t3 t4 t5 h1 h2 h3 h4 h5 os =
      run_tests-each (test_messages res_storage t1 t2 t3 t4 t5) os
        (test_messages-IsSendable res_storage eight t1 t2 t3 t4 t5 h1 h2 h3 h4 h5)
