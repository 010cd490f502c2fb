-- ===== src/Message/State2/Codec.antt =====
-- The fields of VEH2CLOUD_STATE version 2 on the wire.
use csae.Prelude.{
  ℕ, zero, suc, ◌+◌, ◌-◌, ◌*◌, ◌^◌, ◌≤◌, ◌<◌, ◌≡◌, ◌∙◌, Bool, false, some, List, [], ◌∷◌, ◌++◌,
  append_assoc, arith, leb, if◌then◌else◌, length-append, chain, All, Run, ok, fault,
}
use csae.Prelude
use csae.Memory.Word.{sub_size, word_bytes, length-word_bytes}
use csae.Memory.Write.{splice}
use csae.Memory.Write.Laws.{Writes, seq-Writes, skip-Writes, put_byte-Writes, put_word-Writes}
use csae.Memory.Buffer.Laws.{put_behind-Writes, keep-Writes, sub_size_lem}
use csae.Memory.Text.Laws.{put_user_data_at-Writes}
use csae.Message.State
use csae.Message.State.Codec
use csae.Message.Header.Codec as HeaderCodec
use csae.Message.State2.{Veh2CloudState2, length, put_each, put_fields, to_bytes}

-- Two bytes for each wheel.
unfoldable pub each_bytes : Bool → List ℕ → List ℕ
each_bytes be [] = []
each_bytes be (value ∷ v) = word_bytes be 2 value ++ each_bytes be v

-- What `to_bytes` puts behind the base message.
unfoldable pub body : Bool → Veh2CloudState2 → List ℕ
body be m = chain (
    word_bytes false 1 m.abs_flag
    ∷ word_bytes false 1 m.tcs_flag
    ∷ word_bytes false 1 m.esp_flag
    ∷ word_bytes false 1 m.lka_flag
    ∷ word_bytes false 1 m.acc_flag
    ∷ word_bytes false 1 m.fcw_flag
    ∷ word_bytes false 1 m.ldw_flag
    ∷ word_bytes false 1 m.aeb_flag
    ∷ word_bytes false 1 m.lca_flag
    ∷ word_bytes false 1 m.dms_flag
    ∷ word_bytes be 4 m.mileage
    ∷ word_bytes be 2 m.fuel_gauge
    ∷ word_bytes be 2 m.soc
    ∷ word_bytes false 1 m.temperature
    ∷ word_bytes be 4 m.endurance
    ∷ word_bytes be 2 m.vehfault
    ∷ word_bytes be 2 m.motorspeed
    ∷ word_bytes be 4 m.motortorque
    ∷ word_bytes false 1 m.veh_mode
    ∷ word_bytes false 1 m.charge_state
    ∷ word_bytes be 2 m.batt_vol
    ∷ word_bytes be 2 m.batt_cur
    ∷ word_bytes false 1 m.horn_state
    ∷ word_bytes false 1 m.wheel_num
    ∷ each_bytes be m.wheel_velocity
    ∷ each_bytes be m.tire_pressure
    ∷ word_bytes be 2 m.lights
    ∷ word_bytes be 2 m.doors
    ∷ word_bytes false 1 m.user_data_len
    ∷ m.user_data
    ∷ [])

unfoldable pub encode : Veh2CloudState2 → Bool → List ℕ
unfolding body
encode m be = Codec.encode m.state be ++ body be m

-- The fields fit their C types, and the counts are those of the containers.
pub record IsValid (m : Veh2CloudState2) : Type 0 where
  pub state_valid : Codec.IsValid m.state
  pub abs_flag_range : m.abs_flag < 256
  pub tcs_flag_range : m.tcs_flag < 256
  pub esp_flag_range : m.esp_flag < 256
  pub lka_flag_range : m.lka_flag < 256
  pub acc_flag_range : m.acc_flag < 256
  pub fcw_flag_range : m.fcw_flag < 256
  pub ldw_flag_range : m.ldw_flag < 256
  pub aeb_flag_range : m.aeb_flag < 256
  pub lca_flag_range : m.lca_flag < 256
  pub dms_flag_range : m.dms_flag < 256
  pub mileage_range : m.mileage < 2 ^ 32
  pub fuel_gauge_range : m.fuel_gauge < 2 ^ 16
  pub soc_range : m.soc < 2 ^ 16
  pub temperature_range : m.temperature < 256
  pub endurance_range : m.endurance < 2 ^ 32
  pub vehfault_range : m.vehfault < 2 ^ 16
  pub motorspeed_range : m.motorspeed < 2 ^ 16
  pub motortorque_range : m.motortorque < 2 ^ 32
  pub veh_mode_range : m.veh_mode < 256
  pub charge_state_range : m.charge_state < 256
  pub batt_vol_range : m.batt_vol < 2 ^ 16
  pub batt_cur_range : m.batt_cur < 2 ^ 16
  pub horn_state_range : m.horn_state < 256
  pub lights_range : m.lights < 2 ^ 16
  pub doors_range : m.doors < 2 ^ 16
  pub wheel_num_few : m.wheel_num < 256
  pub wheel_velocity_size : m.wheel_num ≡ Prelude.length m.wheel_velocity
  pub tire_pressure_size : m.wheel_num ≡ Prelude.length m.tire_pressure
  pub wheel_velocity_range : All (λ v. v < 2 ^ 16) m.wheel_velocity
  pub tire_pressure_range : All (λ v. v < 2 ^ 16) m.tire_pressure
  pub user_data_size : m.user_data_len ≡ Prelude.length m.user_data
  pub user_data_few : m.user_data_len < 256

pub put_each-Writes :
    (be : Bool) (n : ℕ) (v : List ℕ)
    → n ≡ Prelude.length v
    → Writes (put_each be n v) (each_bytes be v)
unfolding put_each each_bytes
put_each-Writes be zero [] e = skip-Writes
put_each-Writes be zero (value ∷ v) e = absurd (omega arith)
put_each-Writes be (suc n) [] e = absurd (omega arith)
put_each-Writes be (suc n) (value ∷ v) e =
    seq-Writes (put_word-Writes be 2 value) (put_each-Writes be n v (omega arith))

pub put_fields-Writes :
    (be : Bool) (m : Veh2CloudState2) → IsValid m → Writes (put_fields be m) (body be m)
unfolding put_fields body
put_fields-Writes be m x = seq-Writes (put_byte-Writes m.abs_flag) (
    seq-Writes (put_byte-Writes m.tcs_flag) (
      seq-Writes (put_byte-Writes m.esp_flag) (
        seq-Writes (put_byte-Writes m.lka_flag) (
          seq-Writes (put_byte-Writes m.acc_flag) (
            seq-Writes (put_byte-Writes m.fcw_flag) (
              seq-Writes (put_byte-Writes m.ldw_flag) (
                seq-Writes (put_byte-Writes m.aeb_flag) (
                  seq-Writes (put_byte-Writes m.lca_flag) (
                    seq-Writes (put_byte-Writes m.dms_flag) (
                      seq-Writes (put_word-Writes be 4 m.mileage) (
                        seq-Writes (put_word-Writes be 2 m.fuel_gauge) (
                          seq-Writes (put_word-Writes be 2 m.soc) (
                            seq-Writes (put_byte-Writes m.temperature) (
                              seq-Writes (put_word-Writes be 4 m.endurance) (
                                seq-Writes (put_word-Writes be 2 m.vehfault) (
                                  seq-Writes (put_word-Writes be 2 m.motorspeed) (
                                    seq-Writes (put_word-Writes be 4 m.motortorque) (
                                      seq-Writes (put_byte-Writes m.veh_mode) (
                                        seq-Writes (put_byte-Writes m.charge_state) (
                                          seq-Writes (put_word-Writes be 2 m.batt_vol) (
                                            seq-Writes (put_word-Writes be 2 m.batt_cur) (
                                              seq-Writes (put_byte-Writes m.horn_state) (
                                                seq-Writes (put_byte-Writes m.wheel_num) (
                                                  seq-Writes
                                                    (put_each-Writes be m.wheel_num m.wheel_velocity
                                                      x.wheel_velocity_size)
                                                    (seq-Writes
                                                      (put_each-Writes be m.wheel_num
                                                        m.tire_pressure x.tire_pressure_size)
                                                      (seq-Writes (put_word-Writes be 2 m.lights) (
                                                        seq-Writes (put_word-Writes be 2 m.doors) (
                                                          seq-Writes
                                                            (put_byte-Writes m.user_data_len)
                                                            (put_user_data_at-Writes m.user_data_len
                                                            m.user_data
                                                            x.user_data_size)))))))))))))))))))))))))))))

pub length-each_bytes :
    (be : Bool) (v : List ℕ) → Prelude.length (each_bytes be v) ≡ 2 * Prelude.length v
unfolding each_bytes
length-each_bytes be [] = omega arith
length-each_bytes be (value ∷ v) =
    simp (length-append, length-word_bytes, length-each_bytes be v) (omega arith)

pub length-body :
    (be : Bool) (m : Veh2CloudState2)
    → Prelude.length (body be m)
      ≡ 44
        + 2 * Prelude.length m.wheel_velocity
        + 2 * Prelude.length m.tire_pressure
        + Prelude.length m.user_data
unfolding body
length-body be m = simp (length-append, length-word_bytes, length-each_bytes) (omega arith)

-- 142 bytes, eight for each point, two for each wheel's speed and each tyre's pressure, and the
-- user's data.
pub length-encode :
    (m : Veh2CloudState2) (be : Bool)
    → IsValid m
    → Prelude.length (encode m be)
      ≡ 142
        + 8 * Prelude.length m.state.pass_pos
        + 2 * Prelude.length m.wheel_velocity
        + 2 * Prelude.length m.tire_pressure
        + Prelude.length m.user_data
unfolding encode
length-encode m be x = omega (
  arith,
  length-append (Codec.encode m.state be) (body be m),
  Codec.length-encode m.state be x.state_valid,
  length-body be m,
)

-- With a size below 2^64 of at least `length()` and seven more bytes for each point on the route,
-- `to_bytes` of a valid Veh2CloudState2 writes its wire format at the start of the buffer and
-- returns how many bytes that is, if they fit the buffer, and writes outside the buffer if they do
-- not.
pub to_bytes-encode_state2 :
    (m : Veh2CloudState2) (buf : List ℕ) (size : ℕ) (be : Bool)
    → IsValid m
    → length m + 7 * Prelude.length m.state.pass_pos ≤ size
    → size < 2 ^ 64
    → to_bytes m (some buf) size be ≡ (
        if leb (Prelude.length (encode m be)) (Prelude.length buf)
        then ok (some (splice 0 (encode m be) buf), Prelude.length (encode m be))
        else fault)
unfolding to_bytes encode
to_bytes-encode_state2 m buf size be x le lt =
    let fits : Prelude.length (Codec.encode m.state be) + sub_size (length m) (State.length m.state)
        ≤ size =
      rw
        (
          Codec.length-encode m.state be x.state_valid,
          sub_size_lem (length m) (State.length m.state) (omega arith) (omega arith),
        )
        (omega arith) in
    rw (Codec.to_bytes_lem m.state buf size be (omega arith) lt) (
      put_behind-Writes (put_fields be m) buf size _ (Codec.fields-Writes m.state be x.state_valid)
        fits lt
      ∙ keep-Writes buf
          (seq-Writes (Codec.fields-Writes m.state be x.state_valid) (put_fields-Writes be m x)))

-- The header comes first in version 2 too.
pub encode-append :
    (m : Veh2CloudState2) (be : Bool)
    → encode m be ≡ HeaderCodec.encode m.state.header be ++ (Codec.body be m.state ++ body be m)
unfolding encode Codec.encode
encode-append m be =
    append_assoc (HeaderCodec.encode m.state.header be) (Codec.body be m.state) (body be m)
