-- ===== src/Packer/Encode.antt =====
-- What `pack` makes of a message whose bytes fit the array: its wire format.
use csae.Prelude.{ℕ, ◌+◌, ◌*◌, ◌≡◌, ap, ◌⊎◌, true, List, [], arith, length, ok}
use csae.Message.Header.{MessageHeader, heartbeat, heartbeat_res}
use csae.Message.Header.Codec
use csae.Message.Inh.{Veh2CloudInh}
use csae.Message.Inh.Codec as InhCodec
use csae.Message.InhRes.{Cloud2VehInhRes}
use csae.Message.InhRes.Codec as InhResCodec
use csae.Message.State.{Veh2CloudState}
use csae.Message.State.Codec as StateCodec
use csae.Message.State2.{Veh2CloudState2}
use csae.Message.State2.Codec as State2Codec
use csae.Packer.{
  MessageBuffer, header_message, inh_message, inh_res_message, state_message, state2_message, pack,
}
use csae.Packer.Pack.{pack-Fills}
use csae.Packer.Unpack.{IsFramed}

abbrev pub buffer_of : List ℕ → MessageBuffer
buffer_of bs = record { size = length bs; bytes = bs }

module _ (stack : ℕ → List ℕ) (room : (n : ℕ) → length (stack n) ≡ n) where
  pub pack-encode_header :
      (h : MessageHeader)
      → IsFramed h heartbeat 0 ⊎ IsFramed h heartbeat_res 0
      → pack stack h ≡ ok (buffer_of (Codec.encode h true))
  pack-encode_header h f =
      let none : h.data_len ≡ 0 = ground arith in
      let size : length (Codec.encode h true) ≡ 16 = Codec.length-encode h true in
      pack-Fills stack h (Codec.encode h true)
        (λ buf. Codec.to_bytes-encode_header h buf _ true (omega arith)) (room _) (omega arith)
        (omega arith)

  pub pack-encode_inh_res :
      (m : Cloud2VehInhRes)
      → InhResCodec.IsValid m
      → pack stack m ≡ ok (buffer_of (InhResCodec.encode m))
  pack-encode_inh_res m v =
      let size : length (InhResCodec.encode m) ≡ 25 = InhResCodec.length-encode m v in
      pack-Fills stack m (InhResCodec.encode m)
        (λ buf. InhResCodec.to_bytes-encode_inh_res m buf _ true v (omega arith) (omega arith))
        (room _) (omega arith) (omega arith)

  pub pack-encode_inh :
      (m : Veh2CloudInh)
      → InhCodec.IsValid m
      → InhCodec.SameLengths m
      → m.header.data_len ≡ 16 + 3 * m.sw_ver_len + m.user_data_len
      → pack stack m ≡ ok (buffer_of (InhCodec.encode m true))
  pack-encode_inh m v e f =
      let size : length (InhCodec.encode m true) ≡ 32 + 3 * m.sw_ver_len + m.user_data_len =
        InhCodec.length-encode m true v e in
      pack-Fills stack m (InhCodec.encode m true)
        (λ buf.
          InhCodec.to_bytes-encode_inh m buf _ true v (omega arith) (omega arith) (omega arith)
            (omega arith))
        (room _) (omega arith) (omega arith)

  pub pack-encode_state :
      (m : Veh2CloudState)
      → StateCodec.IsValid m
      → m.header.data_len ≡ 82
      → m.pass_pos ≡ []
      → (pack stack m ≡ ok (buffer_of (StateCodec.encode m true)))
        × (length (StateCodec.encode m true) ≡ 98)
  pack-encode_state m v f empty =
      let none : length m.pass_pos ≡ 0 = ap length empty in
      let size : length (StateCodec.encode m true) ≡ 98 =
        omega (arith, StateCodec.length-encode m true v) in
      (
        pack-Fills stack m (StateCodec.encode m true)
            (λ buf. StateCodec.to_bytes-encode_state m buf _ true v (omega arith) (omega arith))
            (room _) (omega arith) (omega arith),
        size,
      )

  pub pack-encode_state2 :
      (m : Veh2CloudState2)
      → State2Codec.IsValid m
      → m.state.header.data_len ≡ 126 + m.user_data_len
      → m.state.pass_pos ≡ []
      → m.wheel_num ≡ 0
      → (pack stack m ≡ ok (buffer_of (State2Codec.encode m true)))
        × (length (State2Codec.encode m true) ≡ 142 + m.user_data_len)
  pack-encode_state2 m v f empty stopped =
      let none : length m.state.pass_pos ≡ 0 = ap length empty in
      let size : length (State2Codec.encode m true) ≡ 142 + m.user_data_len =
        omega (arith, State2Codec.length-encode m true v) in
      (
        pack-Fills stack m (State2Codec.encode m true)
            (λ buf. State2Codec.to_bytes-encode_state2 m buf _ true v (omega arith) (omega arith))
            (room _) (omega arith) (omega arith),
        size,
      )
