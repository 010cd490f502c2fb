-- ===== src/Packer/Sendable.antt =====
-- The messages that reach the peer whole, of all five classes, with what the peer makes of them.
use csae.Prelude.{
  ℕ, ◌+◌, ◌*◌, ◌≤◌, ◌≡◌, ◌⊎◌, refl, ap, true, Option, some, List, [], ◌++◌, append-nil, arith,
  length, Run, ok,
}
use csae.Message.Header.{
  heartbeat, heartbeat_res, veh2cloud_inh, cloud2veh_inh_res, veh2cloud_state, version_01,
  version_02,
}
use csae.Message.Header.Codec
use csae.Message.Inh.Codec as InhCodec
use csae.Message.InhRes.Codec as InhResCodec
use csae.Message.State.{Veh2CloudState}
use csae.Message.State.Codec as StateCodec
use csae.Message.State2.{Veh2CloudState2}
use csae.Message.State2.Codec as State2Codec
use csae.Packer.{
  MessageBuffer, AnyMessage, header, inh, inh_res, state, state2, header_message, inh_message,
  inh_res_message, state_message, state2_message, Handler, Storage, notify, pack, unpack,
}
use csae.Packer.Unpack.{
  IsFramed, unpack-encode_header, unpack-encode_inh, unpack-encode_inh_res, unpack-encode_state,
  unpack-encode_state2,
}
use csae.Packer.Encode.{
  buffer_of, pack-encode_header, pack-encode_inh, pack-encode_inh_res, pack-encode_state,
  pack-encode_state2,
}

-- `Packer::pack<T>` for the class that the message has.
unfoldable pub pack_any : (ℕ → List ℕ) → AnyMessage → Run MessageBuffer
unfolding pack
pack_any stack (header m) = pack stack m
pack_any stack (inh m) = pack stack m
pack_any stack (inh_res m) = pack stack m
pack_any stack (state m) = pack stack m
pack_any stack (state2 m) = pack stack m

-- Valid, framed as the constructors frame it, and with no points, no wheels and versions of one
-- length.
abbrev pub IsSendable : AnyMessage → Type 0
IsSendable (header m) = Codec.IsValid m × (IsFramed m heartbeat 0 ⊎ IsFramed m heartbeat_res 0)
IsSendable (inh m) =
    InhCodec.IsValid m
    × InhCodec.SameLengths m
    × IsFramed m.header veh2cloud_inh (16 + 3 * m.sw_ver_len + m.user_data_len)
IsSendable (inh_res m) = InhResCodec.IsValid m × IsFramed m.header cloud2veh_inh_res 9
IsSendable (state m) =
    StateCodec.IsValid m
    × IsFramed m.header veh2cloud_state 82
    × (m.header.version ≡ version_01)
    × (m.pass_pos ≡ [])
IsSendable (state2 m) =
    State2Codec.IsValid m
    × IsFramed m.state.header veh2cloud_state (126 + m.user_data_len)
    × (m.state.header.version ≡ version_02)
    × (m.state.pass_pos ≡ [])
    × (m.wheel_num ≡ 0)

-- The wire format.
abbrev pub wire_of : AnyMessage → List ℕ
wire_of (header m) = Codec.encode m true
wire_of (inh m) = InhCodec.encode m true
wire_of (inh_res m) = InhResCodec.encode m
wire_of (state m) = StateCodec.encode m true
wire_of (state2 m) = State2Codec.encode m true

-- The message at the peer: the versions of a VEH2CLOUD_INH are replaced by the first one.
abbrev pub as_received : AnyMessage → AnyMessage
as_received (inh m) = inh (InhCodec.as_read m)
as_received m = m

module _ (stack : ℕ → List ℕ) (room : (n : ℕ) → length (stack n) ≡ n) where
  pub pack_any-wire_of :
      (m : AnyMessage) → IsSendable m → pack_any stack m ≡ ok (buffer_of (wire_of m))
  unfolding pack_any
  pack_any-wire_of (header m) v = pack-encode_header stack room m v.1
  pack_any-wire_of (inh m) v = pack-encode_inh stack room m v.0 v.1 v.2.len_is
  pack_any-wire_of (inh_res m) v = pack-encode_inh_res stack room m v.0
  pack_any-wire_of (state m) v = (pack-encode_state stack room m v.0 v.1.len_is v.3).0
  pack_any-wire_of (state2 m) v = (pack-encode_state2 stack room m v.0 v.1.len_is v.3 v.4).0

length-state : (m : Veh2CloudState) → IsSendable (state m) → length (StateCodec.encode m true) ≡ 98
length-state m v =
    let none : length m.pass_pos ≡ 0 = ap length v.3 in
    omega (arith, StateCodec.length-encode m true v.0)

length-state2 :
    (m : Veh2CloudState2)
    → IsSendable (state2 m)
    → length (State2Codec.encode m true) ≡ 142 + m.user_data_len
length-state2 m v =
    let none : length m.state.pass_pos ≡ 0 = ap length v.3 in
    omega (
      arith,
      State2Codec.length-encode m true v.0,
      v.0.user_data_size,
      v.0.wheel_velocity_size,
      v.0.tire_pressure_size,
      v.4,
    )

-- No message is longer than a version 1 announcement with texts of 254 and 255 bytes.
pub length-wire_of :
    (m : AnyMessage) → IsSendable m → (16 ≤ length (wire_of m)) × (length (wire_of m) ≤ 1049)
length-wire_of (header m) v = omega (arith, Codec.length-encode m true)
length-wire_of (inh m) v =
    omega (arith, InhCodec.length-encode m true v.0 v.1, v.0.sw_ver_short, v.0.user_data_short)
length-wire_of (inh_res m) v = omega (arith, InhResCodec.length-encode m v.0)
length-wire_of (state m) v = omega (arith, length-state m v)
length-wire_of (state2 m) v = omega (arith, length-state2 m v, v.0.user_data_few)

module _ {S : Type 0} (raw : Storage) (handler : Option (Handler S)) (s : S) where
  -- Unpacked from memory that starts with it.
  pub unpack-wire_of :
      (m : AnyMessage) (post : List ℕ)
      → IsSendable m
      → unpack raw (some (wire_of m ++ post)) (length (wire_of m)) handler s
        ≡ ok (some (as_received m), notify handler (as_received m) s)
  unpack-wire_of (header m) post v =
      unpack-encode_header raw handler s m post _ v.0 v.1
        (omega (arith, Codec.length-encode m true))
  unpack-wire_of (inh m) post v =
      unpack-encode_inh raw handler s m post _ _ v.0 v.1 v.2 refl
        (omega (arith, length-wire_of (inh m) v))
  unpack-wire_of (inh_res m) post v =
      unpack-encode_inh_res raw handler s m post _ v.0 v.1
        (omega (arith, InhResCodec.length-encode m v.0))
        (omega (arith, InhResCodec.length-encode m v.0))
  unpack-wire_of (state m) post v =
      unpack-encode_state raw handler s m post _ _ v.0 v.1 v.2 (omega (arith, length-state m v))
        (omega (arith, length-wire_of (state m) v))
  unpack-wire_of (state2 m) post v =
      unpack-encode_state2 raw handler s m post _ _ v.0 v.1 v.2 v.4 refl
        (omega (arith, length-wire_of (state2 m) v))

  pub unpack-wire :
      (m : AnyMessage)
      → IsSendable m
      → unpack raw (some (wire_of m)) (length (wire_of m)) handler s
        ≡ ok (some (as_received m), notify handler (as_received m) s)
  unpack-wire m v = rw append-nil at (unpack-wire_of m [] v)
