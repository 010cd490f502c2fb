-- ===== src/Packer/Safety.antt =====
-- `unpack` over memory that is longer than any message but one, as a receive buffer is.
use csae.Prelude.{
  ℕ, ◌+◌, ◌≤◌, ◌≡◌, ◌⊎◌, inl, inr, Bool, true, Option, none, some, List, arith, length, All, ltb,
  ◌==◌, not, ◌||◌, Bool-cases, Run, ok,
}
use csae.Memory.Word.{IsByte, sub_size}
use csae.Memory.Read.{Reader, get_byte}
use csae.Memory.Read.Safe.{Safe, Any, get_byte_lem}
use csae.Memory.Buffer.{get_behind}
use csae.Message.Header
use csae.Message.Header.{
  MessageHeader, default_init, heartbeat, heartbeat_res, veh2cloud_inh, cloud2veh_inh_res,
  veh2cloud_state, version_02,
}
use csae.Message.Header.Codec
use csae.Message.Inh
use csae.Message.Inh.{Veh2CloudInh, default_inh}
use csae.Message.Inh.Codec as InhCodec
use csae.Message.InhRes
use csae.Message.InhRes.{Cloud2VehInhRes, default_inh_res}
use csae.Message.InhRes.Codec as InhResCodec
use csae.Message.State
use csae.Message.State.{Veh2CloudState, default_state}
use csae.Message.State.Decode as StateDecode
use csae.Packer.{
  AnyMessage, Handler, Storage, notify, deliver, unpack, unpack_type, unpack_state, header, inh,
  inh_res, state,
}

-- The code returns, and touches no memory that is not its own.
abbrev pub Returns : {A : Type 0} → Run A → Type 0
Returns {A} r = (a : A) × (r ≡ ok a)

-- A state message of version 2.
abbrev pub IsState2 : List ℕ → Type 0
IsState2 buf = (get_byte buf 5 ≡ ok (veh2cloud_state, 6)) × (get_byte buf 6 ≡ ok (version_02, 7))

module _ (buf : List ℕ) (bytes : All IsByte buf) (long : 2138 ≤ length buf) where
  pub header-Returns :
      (h : MessageHeader) (size : ℕ) (be : Bool)
      → (p : MessageHeader × ℕ) × (Header.from_bytes h (some buf) size be ≡ ok p) × (p.1 ≤ 16)
  unfolding Header.from_bytes
  header-Returns h size be = elim (Bool-cases (ltb size 16)) [
    | inl e ↦ ((h, 0), rw e, omega arith)
    | inr e ↦
        let (a, end, read, le, q) = (Codec.get_fields-Safe be).apply buf 0 bytes (omega arith) in
        ((a, end), rw e read, omega arith)
  ]

  behind-Returns :
      {A : Type 0} {r : Reader A} {n : ℕ} (m : A) (size len offset : ℕ)
      → Safe r Any n
      → offset + n ≤ length buf
      → Returns (get_behind m r size len (some buf) offset)
  unfolding get_behind
  behind-Returns m size len offset safe le = elim (Bool-cases (ltb (sub_size size offset) len)) [
    | inl e ↦ ((m, offset), rw e)
    | inr e ↦ let (a, end, read, _, _) = safe.apply buf offset bytes le in ((a, end), rw e read)
  ]

  inh-Returns :
      (m : Veh2CloudInh) (size : ℕ) (be : Bool) → Returns (Inh.from_bytes m (some buf) size be)
  unfolding Inh.from_bytes
  inh-Returns m size be =
      let (p, e, le) = header-Returns m.header size be in
      let m' = record m { header = p.0 } in
      let (a, e') =
        behind-Returns m' size (sub_size (Inh.length m') 16) p.1 (InhCodec.get_fields-Safe m')
          (omega arith) in
      (a, rw e e')

  inh_res-Returns :
      (m : Cloud2VehInhRes) (size : ℕ) (be : Bool)
      → Returns (InhRes.from_bytes m (some buf) size be)
  unfolding InhRes.from_bytes
  inh_res-Returns m size be =
      let (p, e, le) = header-Returns m.header size be in
      let m' = record m { header = p.0 } in
      let (a, e') =
        behind-Returns m' size m'.header.data_len p.1 (InhResCodec.get_fields-Safe m')
          (omega arith) in
      (a, rw e e')

  state-Returns :
      (m : Veh2CloudState) (size : ℕ) (be : Bool) → Returns (State.from_bytes m (some buf) size be)
  unfolding State.from_bytes
  state-Returns m size be =
      let (p, e, le) = header-Returns m.header size be in
      let m' = record m { header = p.0 } in
      let (a, e') =
        behind-Returns m' size (sub_size (State.length m') 16) p.1
          (StateDecode.get_fields-Safe be m') (omega arith) in
      (a, rw e e')

  byte-Returns :
      (offset : ℕ) → offset + 1 ≤ length buf → (v : ℕ) × (get_byte buf offset ≡ ok (v, offset + 1))
  byte-Returns offset le = get_byte_lem buf offset bytes le

  module _ {S : Type 0} (raw : Storage) (size : ℕ) (handler : Option (Handler S)) (s : S) where
    deliver-Returns :
        {A : Type 0} {r : Run (A × ℕ)} (wrap : A → AnyMessage)
        → Returns r
        → Returns (deliver handler s wrap r)
    deliver-Returns wrap (p, e) = ((some (wrap p.0), notify handler (wrap p.0) s), rw e)

    unpack_state-Returns :
        (version : ℕ)
        → Returns (unpack_state raw buf size handler s version) ⊎ (version ≡ version_02)
    unfolding unpack_state
    unpack_state-Returns version =
        let (m, e) =
          deliver-Returns state (state-Returns (default_state raw.for_state) size true) in
        elim (Bool-cases (version == 0x01)) [
          | inl one ↦ inl (m, rw one e)
          | inr other ↦ elim (Bool-cases (version == 0x02)) [
            | inl two ↦ inr (ground arith)
            | inr neither ↦ inl ((none, s), rw (other, neither))
          ]
        ]

    unpack_type-Returns :
        (data_type : ℕ)
        → get_byte buf 5 ≡ ok (data_type, 6)
        → Returns (unpack_type raw buf size handler s data_type) ⊎ IsState2 buf
    unfolding unpack_type
    unpack_type-Returns data_type at =
        let (h, e0) =
          deliver-Returns header
            (let (p, e, _) = header-Returns (default_init raw.for_header) size true in (p, e)) in
        let (m1, e1) = deliver-Returns inh (inh-Returns (default_inh raw.for_inh) size true) in
        let (m2, e2) =
          deliver-Returns inh_res (inh_res-Returns (default_inh_res raw.for_inh_res) size true) in
        let (version, version_at) = byte-Returns 6 (omega arith) in
        elim (Bool-cases (data_type == heartbeat || data_type == heartbeat_res)) [
          | inl is ↦ inl (h, rw is e0)
          | inr a ↦ elim (Bool-cases (data_type == veh2cloud_inh)) [
            | inl is ↦ inl (m1, rw (a, is) e1)
            | inr b ↦ elim (Bool-cases (data_type == cloud2veh_inh_res)) [
              | inl is ↦ inl (m2, rw (a, b, is) e2)
              | inr c ↦ elim (Bool-cases (data_type == veh2cloud_state)) [
                | inl is ↦
                    let type_is : data_type ≡ veh2cloud_state = ground arith in
                    elim (unpack_state-Returns version) [
                      | inl (m, e) ↦ inl (m, rw (a, b, c, is, version_at) e)
                      | inr two ↦ inr ((rw type_is at at), (rw two at version_at))
                    ]
                | inr d ↦ inl ((none, s), rw (a, b, c, d))
              ]
            ]
          ]
        ]

    -- Over a memory of at least 2138 bytes, `unpack` returns without touching memory outside
    -- it, whatever the bytes, the size and the handler are, unless byte 5 is the type
    -- VEH2CLOUD_STATE and byte 6 the version 2.
    pub unpack-Returns : Returns (unpack raw (some buf) size handler s) ⊎ IsState2 buf
    unfolding unpack
    unpack-Returns =
        let (id, id_at) = byte-Returns 0 (omega arith) in
        let (data_type, type_at) = byte-Returns 5 (omega arith) in
        elim (Bool-cases (size == 0)) [
          | inl nothing ↦ inl ((none, s), rw nothing)
          | inr a ↦ elim (Bool-cases (not (id == 0xf2))) [
            | inl other ↦ inl ((none, s), rw (a, id_at, other))
            | inr b ↦ elim (unpack_type-Returns data_type type_at) [
              | inl (m, e) ↦ inl (m, rw (a, id_at, b, type_at) e)
              | inr is ↦ inr is
            ]
          ]
        ]
