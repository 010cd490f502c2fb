-- ===== src/Packer/Unpack.antt =====
-- `unpack` over memory that starts with the wire format of a message.
use csae.Prelude.{
  ℕ, ◌^◌, ◌≤◌, ◌<◌, ◌≡◌, ◌⊎◌, inl, inr, ◌∙◌, true, Option, some, List, ◌++◌, append_assoc, refl,
  arith, length, ok,
}
use csae.Message.Header.{
  MessageHeader, heartbeat, heartbeat_res, veh2cloud_inh, cloud2veh_inh_res, veh2cloud_state,
  version_01, version_02,
}
use csae.Message.Header.Codec
use csae.Message.Inh.{Veh2CloudInh}
use csae.Message.Inh.Codec as InhCodec
use csae.Message.InhRes.{Cloud2VehInhRes}
use csae.Message.InhRes.Codec as InhResCodec
use csae.Message.State
use csae.Message.State.{Veh2CloudState, default_state}
use csae.Message.State.Codec as StateCodec
use csae.Message.State.Decode as StateDecode
use csae.Message.State2
use csae.Message.State2.{Veh2CloudState2, default_state2}
use csae.Message.State2.Codec as State2Codec
use csae.Message.State2.Decode as State2Decode
use csae.Packer.{
  header_message, inh_message, inh_res_message, state_message, state2_message, header, inh, inh_res,
  state, state2, Handler, Storage, notify, deliver, unpack, unpack_type, unpack_state,
}
use csae.Packer.Front.{unpack-front, version_byte}

-- The identifier, the data type and the length that a constructor gives a message.
pub record IsFramed (h : MessageHeader) (data_type data_len : ℕ) : Type 0 where
  pub id_is : h.id ≡ 0xf2
  pub type_is : h.data_type ≡ data_type
  pub len_is : h.data_len ≡ data_len

module _ {S : Type 0} (raw : Storage) (handler : Option (Handler S)) (s : S) where
  -- Memory that holds a header with the right identifier and type, and then `post`.
  unpack_framed :
      (h : MessageHeader) (post : List ℕ) (size data_type data_len : ℕ)
      → Codec.IsValid h
      → IsFramed h data_type data_len
      → 1 ≤ size
      → unpack raw (some (Codec.encode h true ++ post)) size handler s
        ≡ unpack_type raw (Codec.encode h true ++ post) size handler s data_type
  unpack_framed h post size data_type data_len v f le =
      unpack-front h post v raw size handler s f.id_is le ∙ rw f.type_is

  pub unpack-encode_header :
      (h : MessageHeader) (post : List ℕ) (size : ℕ)
      → Codec.IsValid h
      → IsFramed h heartbeat 0 ⊎ IsFramed h heartbeat_res 0
      → 16 ≤ size
      → unpack raw (some (Codec.encode h true ++ post)) size handler s
        ≡ ok (some (header h), notify handler (header h) s)
  unfolding unpack_type
  unpack-encode_header h post size v (inl f) le =
      unpack_framed h post size heartbeat 0 v f (omega arith)
      ∙ rw (Codec.from_bytes-append h _ post size true v le)
  unpack-encode_header h post size v (inr f) le =
      unpack_framed h post size heartbeat_res 0 v f (omega arith)
      ∙ rw (Codec.from_bytes-append h _ post size true v le)

  -- The same for a wire format that is a header and a body.
  behind :
      (bs : List ℕ) (h : MessageHeader) (rest post : List ℕ) (size data_type data_len : ℕ)
      → bs ≡ Codec.encode h true ++ rest
      → Codec.IsValid h
      → IsFramed h data_type data_len
      → 1 ≤ size
      → unpack raw (some (bs ++ post)) size handler s
        ≡ unpack_type raw (bs ++ post) size handler s data_type
  behind bs h rest post size data_type data_len e v f le =
      rw (e, append_assoc (Codec.encode h true) rest post)
        (unpack_framed h (rest ++ post) size data_type data_len v f le)

  pub unpack-encode_inh_res :
      (m : Cloud2VehInhRes) (post : List ℕ) (size : ℕ)
      → InhResCodec.IsValid m
      → IsFramed m.header cloud2veh_inh_res 9
      → 25 ≤ size
      → size < 2 ^ 64
      → unpack raw (some (InhResCodec.encode m ++ post)) size handler s
        ≡ ok (some (inh_res m), notify handler (inh_res m) s)
  unfolding unpack_type
  unpack-encode_inh_res m post size v f le lt =
      behind (InhResCodec.encode m) m.header (InhResCodec.body m) post size cloud2veh_inh_res 9
        (unfold InhResCodec.encode in refl) v.header_valid f (omega arith)
      ∙ rw (InhResCodec.from_bytes-encode_inh_res m raw.for_inh_res post size v le lt)

  pub unpack-encode_inh :
      (m : Veh2CloudInh) (post : List ℕ) (size len : ℕ)
      → InhCodec.IsValid m
      → InhCodec.SameLengths m
      → IsFramed m.header veh2cloud_inh len
      → length (InhCodec.encode m true) ≡ size
      → size < 2 ^ 64
      → unpack raw (some (InhCodec.encode m true ++ post)) size handler s
        ≡ ok (some (inh (InhCodec.as_read m)), notify handler (inh (InhCodec.as_read m)) s)
  unfolding unpack_type
  unpack-encode_inh m post size len v e f same lt =
      behind (InhCodec.encode m true) m.header (InhCodec.body m) post size veh2cloud_inh len
        (unfold InhCodec.encode in refl) v.header_valid f
        (omega (arith, InhCodec.length-encode m true v e))
      ∙ rw (InhCodec.from_bytes-encode_inh m raw.for_inh post size true v e (omega arith) lt)

  -- The state message of version 1, or 2.
  unpack_state-version_01 :
      (buf : List ℕ) (size version : ℕ)
      → version ≡ version_01
      → unpack_state raw buf size handler s version
        ≡ deliver handler s state
            (State.from_bytes (default_state raw.for_state) (some buf) size true)
  unfolding unpack_state
  unpack_state-version_01 buf size version e = rw e

  unpack_state-version_02 :
      (buf : List ℕ) (size version : ℕ)
      → version ≡ version_02
      → unpack_state raw buf size handler s version
        ≡ deliver handler s state2
            (State2.from_bytes (default_state2 raw.for_state2) (some buf) size true)
  unfolding unpack_state
  unpack_state-version_02 buf size version e = rw e

  -- Behind a header of type VEH2CLOUD_STATE the version decides.
  unpack-state_front :
      (h : MessageHeader) (post : List ℕ) (size len : ℕ)
      → Codec.IsValid h
      → IsFramed h veh2cloud_state len
      → 1 ≤ size
      → unpack raw (some (Codec.encode h true ++ post)) size handler s
        ≡ unpack_state raw (Codec.encode h true ++ post) size handler s h.version
  unfolding unpack_type
  unpack-state_front h post size len v f le =
      unpack_framed h post size veh2cloud_state len v f le ∙ rw (version_byte h post v)

  behind_state :
      (bs : List ℕ) (h : MessageHeader) (rest post : List ℕ) (size len : ℕ)
      → bs ≡ Codec.encode h true ++ rest
      → Codec.IsValid h
      → IsFramed h veh2cloud_state len
      → 1 ≤ size
      → unpack raw (some (bs ++ post)) size handler s
        ≡ unpack_state raw (bs ++ post) size handler s h.version
  behind_state bs h rest post size len e v f le =
      rw (e, append_assoc (Codec.encode h true) rest post)
        (unpack-state_front h (rest ++ post) size len v f le)

  pub unpack-encode_state :
      (m : Veh2CloudState) (post : List ℕ) (size len : ℕ)
      → StateCodec.IsValid m
      → IsFramed m.header veh2cloud_state len
      → m.header.version ≡ version_01
      → 98 ≤ size
      → size < 2 ^ 64
      → unpack raw (some (StateCodec.encode m true ++ post)) size handler s
        ≡ ok (some (state m), notify handler (state m) s)
  unpack-encode_state m post size len v f ver le lt =
      behind_state (StateCodec.encode m true) m.header (StateCodec.body true m) post size len
        (unfold StateCodec.encode in refl) v.header_valid f (omega arith)
      ∙ unpack_state-version_01 (StateCodec.encode m true ++ post) size m.header.version ver
      ∙ rw (StateDecode.from_bytes-encode_state m raw.for_state post size true v le lt)

  pub unpack-encode_state2 :
      (m : Veh2CloudState2) (post : List ℕ) (size len : ℕ)
      → State2Codec.IsValid m
      → IsFramed m.state.header veh2cloud_state len
      → m.state.header.version ≡ version_02
      → m.wheel_num ≡ 0
      → length (State2Codec.encode m true) ≡ size
      → size < 2 ^ 64
      → unpack raw (some (State2Codec.encode m true ++ post)) size handler s
        ≡ ok (some (state2 m), notify handler (state2 m) s)
  unpack-encode_state2 m post size len v f ver stopped same lt =
      behind_state (State2Codec.encode m true) m.state.header
        (StateCodec.body true m.state ++ State2Codec.body true m) post size len
        (State2Codec.encode-append m true) v.state_valid.header_valid f
        (omega (arith, State2Codec.length-encode m true v))
      ∙ unpack_state-version_02 (State2Codec.encode m true ++ post) size m.state.header.version ver
      ∙ rw (
          State2Decode.from_bytes-encode_state2 m raw.for_state2 post size true v stopped
            (omega arith) lt)
