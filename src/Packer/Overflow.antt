-- ===== src/Packer/Overflow.antt =====
-- Where the length in the header is not the number of bytes that `to_bytes` writes.
use csae.Prelude.{ℕ, ◌+◌, ◌^◌, ◌<◌, ◌≡◌, ◌∙◌, ◌⊎◌, inl, inr, true, List, arith, length, ok, fault}
use csae.Message.Header.{sizeof_header}
use csae.Message.Header.Codec
use csae.Message.Inh
use csae.Message.Inh.{Veh2CloudInh}
use csae.Message.Inh.Codec as InhCodec
use csae.Message.Inh.Faults
use csae.Message.State.{Veh2CloudState}
use csae.Message.State.Codec as StateCodec
use csae.Message.State2.{Veh2CloudState2}
use csae.Message.State2.Codec as State2Codec
use csae.Packer.{inh_message, state_message, state2_message, pack}
use csae.Packer.Pack.{pack-Fills, pack-overflow, pack-fault}

module _ (stack : ℕ → List ℕ) (room : (n : ℕ) → length (stack n) ≡ n) where
  -- Packing a valid VEH2CLOUD_STATE message with at least one point on its route, whose
  -- `data_len` counts one byte for each point as the constructor does, writes past the array on
  -- the stack.
  pub pack-state_overflow :
      (m : Veh2CloudState)
      → StateCodec.IsValid m
      → m.header.data_len ≡ 82 + length m.pass_pos
      → 0 < length m.pass_pos
      → pack stack m ≡ fault
  pack-state_overflow m v f points =
      pack-overflow stack m (StateCodec.encode m true)
        (λ buf. StateCodec.to_bytes-encode_state m buf _ true v (omega arith) (omega arith))
        (room _) (omega (arith, StateCodec.length-encode m true v))

  -- Packing a valid VEH2CLOUD_STATE message of version 2 with at least one wheel and no points on
  -- its route, whose `data_len` counts one byte for each speed and each pressure as the
  -- constructor does, writes past the array on the stack.
  pub pack-state2_overflow :
      (m : Veh2CloudState2)
      → State2Codec.IsValid m
      → m.state.header.data_len
        ≡ 126 + length m.wheel_velocity + length m.tire_pressure + m.user_data_len
      → length m.state.pass_pos ≡ 0
      → 0 < m.wheel_num
      → pack stack m ≡ fault
  pack-state2_overflow m v f empty wheels =
      pack-overflow stack m (State2Codec.encode m true)
        (λ buf. State2Codec.to_bytes-encode_state2 m buf _ true v (omega arith) (omega arith))
        (room _) (omega (arith, State2Codec.length-encode m true v))

  -- Packing a VEH2CLOUD_INH message with a valid header, whose `length()` is below 2^64 and more
  -- than the 16 bytes of the header and `data_len`, returns the 16 bytes of the header and
  -- nothing else.
  pub pack-inh_truncated :
      (m : Veh2CloudInh)
      → Codec.IsValid m.header
      → sizeof_header + m.header.data_len < Inh.length m
      → Inh.length m < 2 ^ 64
      → pack stack m ≡ ok (record { size = 16; bytes = Codec.encode m.header true })
  pack-inh_truncated m v over small =
      let size : length (Codec.encode m.header true) ≡ 16 = Codec.length-encode m.header true in
      pack-Fills stack m (Codec.encode m.header true)
        (λ buf. Faults.to_bytes-short_inh m buf _ true (omega arith) over small) (room _)
        (omega arith) (omega arith)
      ∙ rw size

  -- Packing a valid VEH2CLOUD_INH message, whose `data_len` counts the bytes of its texts, reads
  -- past the end of the software version if the hardware version or the driving system version is
  -- longer than it by two bytes or more.
  pub pack-inh_overread :
      (m : Veh2CloudInh)
      → InhCodec.IsValid m
      → m.header.data_len ≡ 16 + m.sw_ver_len + m.hw_ver_len + m.ad_ver_len + m.user_data_len
      → (m.sw_ver_len + 1 < m.hw_ver_len) ⊎ (m.sw_ver_len + 1 < m.ad_ver_len)
      → pack stack m ≡ fault
  pack-inh_overread m v f (inl longer) = pack-fault stack m (Codec.encode m.header true) (λ buf.
      Faults.to_bytes-overread_inh m buf _ true (inl (omega arith)) (omega arith) (omega arith))
  pack-inh_overread m v f (inr longer) = pack-fault stack m (Codec.encode m.header true) (λ buf.
      Faults.to_bytes-overread_inh m buf _ true (inr (omega arith)) (omega arith) (omega arith))
