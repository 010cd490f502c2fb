-- ===== src/Packer/RoundTrip.antt =====
-- What the peer unpacks from a message that was packed.
use csae.Prelude.{ℕ, ◌+◌, ◌*◌, ◌≡◌, ◌⊎◌, Option, some, List, [], length, Run, ok, bind}
use csae.Message.Header.{
  MessageHeader, heartbeat, heartbeat_res, veh2cloud_inh, cloud2veh_inh_res, veh2cloud_state,
  version_01, version_02,
}
use csae.Message.Header.Codec
use csae.Message.Inh.{Veh2CloudInh}
use csae.Message.Inh.Codec as InhCodec
use csae.Message.InhRes.{Cloud2VehInhRes}
use csae.Message.InhRes.Codec as InhResCodec
use csae.Message.State.{Veh2CloudState}
use csae.Message.State.Codec as StateCodec
use csae.Message.State2.{Veh2CloudState2}
use csae.Message.State2.Codec as State2Codec
use csae.Packer.{
  header_message, inh_message, inh_res_message, state_message, state2_message, IsMessage,
  AnyMessage, header, inh, inh_res, state, state2, Handler, Storage, notify, pack, unpack,
}
use csae.Packer.Unpack.{IsFramed}
use csae.Packer.Encode.{
  pack-encode_header, pack-encode_inh_res, pack-encode_inh, pack-encode_state, pack-encode_state2,
}
use csae.Packer.Sendable.{pack_any, IsSendable, as_received, pack_any-wire_of, unpack-wire}

module _ (stack : ℕ → List ℕ) (room : (n : ℕ) → length (stack n) ≡ n) {S : Type 0} (raw : Storage)
    (handler : Option (Handler S)) (s : S) where
  -- Packed, sent and unpacked: what the receiving side has at the end.
  abbrev pub sent : {T : Type 0} ⦃t : IsMessage T⦄ → T → Run (Option AnyMessage × S)
  sent m = bind (pack stack m) (λ p. unpack raw (some p.bytes) p.size handler s)

  -- A header whose fields fit their C types, with the identifier 0xF2, `data_len` 0 and the type
  -- HEARTBEAT or HEARTBEAT_RES, is packed, and unpacking the packed bytes returns that header and
  -- calls the handler with it, whatever the stack array and the storage held before.
  pub unpack-pack_header :
      (h : MessageHeader)
      → Codec.IsValid h
      → IsFramed h heartbeat 0 ⊎ IsFramed h heartbeat_res 0
      → sent h ≡ ok (some (header h), notify handler (header h) s)
  unpack-pack_header h v f =
      rw (pack-encode_header stack room h f) (unpack-wire raw handler s (header h) (v, f))

  -- A valid CLOUD2VEH_INH_RES message, framed with `data_len` 9, is packed, and unpacking the
  -- packed bytes returns that message and calls the handler with it, whatever the stack array and
  -- the storage held before.
  pub unpack-pack_inh_res :
      (m : Cloud2VehInhRes)
      → InhResCodec.IsValid m
      → IsFramed m.header cloud2veh_inh_res 9
      → sent m ≡ ok (some (inh_res m), notify handler (inh_res m) s)
  unpack-pack_inh_res m v f =
      rw (pack-encode_inh_res stack room m v) (unpack-wire raw handler s (inh_res m) (v, f))

  -- A valid VEH2CLOUD_INH message whose three version texts have the same length, framed with the
  -- `data_len` of its texts, is packed, and unpacking the packed bytes returns that message with
  -- the software version in the place of the hardware version and of the driving system version,
  -- and calls the handler with it.
  pub unpack-pack_inh :
      (m : Veh2CloudInh)
      → InhCodec.IsValid m
      → InhCodec.SameLengths m
      → IsFramed m.header veh2cloud_inh (16 + 3 * m.sw_ver_len + m.user_data_len)
      → sent m ≡ ok (some (inh (InhCodec.as_read m)), notify handler (inh (InhCodec.as_read m)) s)
  unpack-pack_inh m v e f =
      rw (pack-encode_inh stack room m v e f.len_is) (unpack-wire raw handler s (inh m) (v, e, f))

  -- A valid VEH2CLOUD_STATE message of version 1 without points on its route, framed with
  -- `data_len` 82, is packed, and unpacking the packed bytes returns that message and calls the
  -- handler with it, whatever the stack array and the storage held before.
  pub unpack-pack_state :
      (m : Veh2CloudState)
      → StateCodec.IsValid m
      → IsFramed m.header veh2cloud_state 82
      → m.header.version ≡ version_01
      → m.pass_pos ≡ []
      → sent m ≡ ok (some (state m), notify handler (state m) s)
  unpack-pack_state m v f ver empty =
      rw (pack-encode_state stack room m v f.len_is empty).0
        (unpack-wire raw handler s (state m) (v, f, ver, empty))

  -- A valid VEH2CLOUD_STATE message of version 2 without points on its route and with `wheel_num`
  -- 0, framed with `data_len` 126 more than its user data, is packed, and unpacking the packed
  -- bytes returns that message and calls the handler with it, whatever the stack array and the
  -- storage held before.
  pub unpack-pack_state2 :
      (m : Veh2CloudState2)
      → State2Codec.IsValid m
      → IsFramed m.state.header veh2cloud_state (126 + m.user_data_len)
      → m.state.header.version ≡ version_02
      → m.state.pass_pos ≡ []
      → m.wheel_num ≡ 0
      → sent m ≡ ok (some (state2 m), notify handler (state2 m) s)
  unpack-pack_state2 m v f ver empty stopped =
      rw (pack-encode_state2 stack room m v f.len_is empty stopped).0
        (unpack-wire raw handler s (state2 m) (v, f, ver, empty, stopped))

  -- A sendable message of any of the five classes (valid, framed as the constructors frame it,
  -- without points and wheels, with versions of one length) is packed, and unpacking the packed
  -- bytes returns that message, a VEH2CLOUD_INH with its first version in the place of the other
  -- two, and calls the handler with it, whatever the stack array and the storage held before.
  pub unpack-pack_any :
      (m : AnyMessage)
      → IsSendable m
      → bind (pack_any stack m) (λ p. unpack raw (some p.bytes) p.size handler s)
        ≡ ok (some (as_received m), notify handler (as_received m) s)
  unpack-pack_any m v = rw (pack_any-wire_of stack room m v) (unpack-wire raw handler s m v)
