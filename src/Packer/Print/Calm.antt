-- ===== src/Packer/Print/Calm.antt =====
-- What arrives in an answer of the cloud, that its print needs.
use csae.Prelude.{
  ℕ, ◌≤◌, ◌≡◌, inl, inr, Bool, true, false, Option, none, some, List, arith, length, All, ltb,
  Bool-cases, if◌then◌else◌, Run, ok, fault, bind,
}
use mathlib.Core.Path.{subst}
use csae.Memory.Word.{IsByte, sub_size}
use csae.Memory.Read.Safe.{Safe, bind-Safe, done-Safe, get_bytes-Safe, get_byte-Safe}
use csae.Memory.Buffer.{get_behind}
use csae.Message.InhRes
use csae.Message.InhRes.{Cloud2VehInhRes, default_inh_res, get_fields}
use csae.Message.Header.{MessageHeader}
use csae.Message.Inh.{Veh2CloudInh}
use csae.Message.State.{Veh2CloudState}
use csae.Message.State2.{Veh2CloudState2}
use csae.Packer.{
  AnyMessage, header, inh, inh_res, state, state2, Handler, Storage, deliver, unpack_state,
  unpack_type, unpack,
}
use csae.Packer.Safety.{header-Returns}

abbrev HasEight : Cloud2VehInhRes → Type 0
HasEight m = length m.vehicle_id ≡ 8

get_fields-Safe : (m : Cloud2VehInhRes) → Safe (get_fields m) HasEight 9
unfolding get_fields
get_fields-Safe m =
    bind-Safe (get_bytes-Safe 8 (omega arith))
      λ _ q. bind-Safe get_byte-Safe λ _ _. done-Safe _ HasEight q.1

abbrev pub IsCalm : AnyMessage → Type 0
IsCalm (inh_res m) = length m.vehicle_id ≡ 8
IsCalm _ = Unit {0}

module _ {S : Type 0} (handler : Option (Handler S)) (s : S) where
  abbrev Outcome : Run (Option AnyMessage × S) → Type 0
  Outcome (ok (none, after)) = Unit {0}
  Outcome (ok (some m, after)) = IsCalm m
  Outcome fault = Unit {0}

  record Calm (r : Run (Option AnyMessage × S)) : Type 0 where
    outcome : Outcome r

  none-Calm : Calm (ok (none, s))
  none-Calm = record { outcome = tt }

  deliver-Calm :
      {A : Type 0} (wrap : A → AnyMessage) (r : Run (A × ℕ))
      → ((a : A) → IsCalm (wrap a))
      → Calm (deliver handler s wrap r)
  deliver-Calm wrap (ok p) h = record { outcome = h p.0 }
  deliver-Calm wrap fault h = record { outcome = tt }

  deliver_header-Calm : (r : Run (MessageHeader × ℕ)) → Calm (deliver handler s header r)
  deliver_header-Calm r = deliver-Calm header r (λ a. tt)

  deliver_inh-Calm : (r : Run (Veh2CloudInh × ℕ)) → Calm (deliver handler s inh r)
  deliver_inh-Calm r = deliver-Calm inh r (λ a. tt)

  deliver_state-Calm : (r : Run (Veh2CloudState × ℕ)) → Calm (deliver handler s state r)
  deliver_state-Calm r = deliver-Calm state r (λ a. tt)

  deliver_state2-Calm : (r : Run (Veh2CloudState2 × ℕ)) → Calm (deliver handler s state2 r)
  deliver_state2-Calm r = deliver-Calm state2 r (λ a. tt)

  if-Calm :
      {x y : Run (Option AnyMessage × S)} (b : Bool) → Calm x → Calm y → Calm (if b then x else y)
  if-Calm true hx hy = hx
  if-Calm false hx hy = hy

  bind-Calm :
      {A : Type 0} (r : Run A) (f : A → Run (Option AnyMessage × S))
      → ((a : A) → Calm (f a))
      → Calm (bind r f)
  bind-Calm (ok a) f h = h a
  bind-Calm fault f h = record { outcome = tt }

  module _ (buf : List ℕ) (bytes : All IsByte buf) (long : 2138 ≤ length buf) where
    from_bytes-HasEight :
        (m : Cloud2VehInhRes) (size : ℕ) (be : Bool)
        → HasEight m
        → (p : Cloud2VehInhRes × ℕ) × (InhRes.from_bytes m (some buf) size be ≡ ok p) × HasEight p.0
    unfolding InhRes.from_bytes get_behind
    from_bytes-HasEight m size be eight =
        let (p, e, le) = header-Returns buf bytes long m.header size be in
        let m' = record m { header = p.0 } in
        elim (Bool-cases (ltb (sub_size size p.1) p.0.data_len)) [
          | inl short ↦ ((m', p.1), rw (e, short), eight)
          | inr enough ↦
              let (a, end, read, _, q) = (get_fields-Safe m').apply buf p.1 bytes (omega arith) in
              ((a, end), rw (e, enough) read, q)
        ]

    module _ (raw : Storage) (eight : length raw.for_inh_res.vehicle_id ≡ 8) (size : ℕ) where
      inh_res-Calm : Calm (
          deliver handler s inh_res
            (InhRes.from_bytes (default_inh_res raw.for_inh_res) (some buf) size true))
      unfolding default_inh_res
      inh_res-Calm =
          let (p, e, q) = from_bytes-HasEight (default_inh_res raw.for_inh_res) size true eight in
          rw e (record { outcome = q })

      unpack_state-Calm : (version : ℕ) → Calm (unpack_state raw buf size handler s version)
      unfolding unpack_state
      unpack_state-Calm version =
          search (if-Calm, deliver_state-Calm, deliver_state2-Calm, none-Calm)

      unpack_type-Calm : (data_type : ℕ) → Calm (unpack_type raw buf size handler s data_type)
      unfolding unpack_type
      unpack_type-Calm data_type =
          search
            (
              if-Calm, deliver_header-Calm, deliver_inh-Calm, inh_res-Calm, bind-Calm,
              unpack_state-Calm, none-Calm,
            )
            depth 12

      unpack-Calm : Calm (unpack raw (some buf) size handler s)
      unfolding unpack
      unpack-Calm = search (if-Calm, bind-Calm, unpack_type-Calm, none-Calm)

      -- If the storage of a CLOUD2VEH_INH_RES has eight bytes for the vehicle id, so has one that is
      -- unpacked from a receive buffer.
      pub unpack-IsCalm :
          (m : AnyMessage) (after : S)
          → unpack raw (some buf) size handler s ≡ ok (some m, after)
          → IsCalm m
      unpack-IsCalm m after e = (subst Calm e unpack-Calm).outcome
