-- ===== src/Message/State2/Decode.antt =====
-- Reading VEH2CLOUD_STATE version 2 back.
use csae.Prelude.{
  ℕ, zero, suc, append_assoc, ◌+◌, ◌*◌, ◌^◌, ◌≤◌, ◌<◌, ◌≡◌, sym, ap, ◌∙◌, Bool, some, List, [], ◌∷◌,
  ◌++◌, arith, length-append, All, Run, ok, fault,
}
use csae.Prelude
use csae.Memory.Read.Laws.{
  Reads, bind-Reads, map-Reads, done-Reads, get_byte-Reads, get_u16-Reads, get_u32-Reads,
}
use csae.Memory.Buffer.{get_behind}
use csae.Memory.Word.{sub_size}
use csae.Memory.Buffer.Laws.{room, sub_size_lem}
use csae.Memory.Text.Laws.{get_user_data_at-Reads}
use csae.Message.State
use csae.Message.State.Codec
use csae.Message.State.Decode
use csae.Message.State2.{Veh2CloudState2, default_state2, length, get_each, get_fields, from_bytes}
use csae.Message.State2.Codec.{each_bytes, body, encode, length-body, IsValid}

-- Over a container that is empty, as a new message's are, the loop is sound for no wheel at all.
get_none-Reads :
    (be : Bool) (n : ℕ) (v : List ℕ)
    → n ≡ 0
    → n ≡ Prelude.length v
    → Reads (get_each be n []) (each_bytes be v) v
unfolding get_each each_bytes
get_none-Reads be zero [] z e = done-Reads []
get_none-Reads be zero (value ∷ v) z e = absurd (omega arith)
get_none-Reads be (suc n) v z e = absurd (omega arith)

pub get_fields-Reads :
    (be : Bool) (m raw : Veh2CloudState2)
    → IsValid m
    → m.wheel_num ≡ 0
    → Reads (get_fields be (record (default_state2 raw) { state = m.state })) (body be m) m
unfolding get_fields default_state2 body
get_fields-Reads be m raw x z = bind-Reads _ (get_byte-Reads m.abs_flag x.abs_flag_range) (
    bind-Reads _ (get_byte-Reads m.tcs_flag x.tcs_flag_range) (
      bind-Reads _ (get_byte-Reads m.esp_flag x.esp_flag_range) (
        bind-Reads _ (get_byte-Reads m.lka_flag x.lka_flag_range) (
          bind-Reads _ (get_byte-Reads m.acc_flag x.acc_flag_range) (
            bind-Reads _ (get_byte-Reads m.fcw_flag x.fcw_flag_range) (
              bind-Reads _ (get_byte-Reads m.ldw_flag x.ldw_flag_range) (
                bind-Reads _ (get_byte-Reads m.aeb_flag x.aeb_flag_range) (
                  bind-Reads _ (get_byte-Reads m.lca_flag x.lca_flag_range) (
                    bind-Reads _ (get_byte-Reads m.dms_flag x.dms_flag_range) (
                      bind-Reads _ (get_u32-Reads be m.mileage x.mileage_range) (
                        bind-Reads _ (get_u16-Reads be m.fuel_gauge x.fuel_gauge_range) (
                          bind-Reads _ (get_u16-Reads be m.soc x.soc_range) (
                            bind-Reads _ (get_byte-Reads m.temperature x.temperature_range) (
                              bind-Reads _ (get_u32-Reads be m.endurance x.endurance_range) (
                                bind-Reads _ (get_u16-Reads be m.vehfault x.vehfault_range) (
                                  bind-Reads _ (get_u16-Reads be m.motorspeed x.motorspeed_range) (
                                    bind-Reads _
                                      (get_u32-Reads be m.motortorque x.motortorque_range)
                                      (bind-Reads _ (get_byte-Reads m.veh_mode x.veh_mode_range) (
                                        bind-Reads _
                                          (get_byte-Reads m.charge_state x.charge_state_range)
                                          (bind-Reads _
                                            (get_u16-Reads be m.batt_vol x.batt_vol_range)
                                            (bind-Reads _
                                              (get_u16-Reads be m.batt_cur x.batt_cur_range)
                                              (bind-Reads _
                                                (get_byte-Reads m.horn_state x.horn_state_range)
                                                (bind-Reads _
                                                  (get_byte-Reads m.wheel_num x.wheel_num_few)
                                                  (bind-Reads _
                                                    (get_none-Reads be m.wheel_num m.wheel_velocity
                                                      z x.wheel_velocity_size)
                                                    (bind-Reads _
                                                      (get_none-Reads be m.wheel_num m.tire_pressure
                                                        z x.tire_pressure_size)
                                                      (bind-Reads _
                                                        (get_u16-Reads be m.lights x.lights_range)
                                                        (bind-Reads _
                                                          (get_u16-Reads be m.doors x.doors_range)
                                                          (bind-Reads _
                                                            (get_byte-Reads m.user_data_len
                                                            x.user_data_few)
                                                            (map-Reads _ (
                                                            get_user_data_at-Reads m.user_data_len
                                                            m.user_data
                                                            x.user_data_size))))))))))))))))))))))))))))))

-- With a size below 2^64 that covers the wire format, the constructor over the wire format of a
-- valid Veh2CloudState2 with `wheel_num` 0 in either byte order, and any bytes behind, makes that
-- message and returns its length.
pub from_bytes-encode_state2 :
    (m raw : Veh2CloudState2) (post : List ℕ) (size : ℕ) (be : Bool)
    → IsValid m
    → m.wheel_num ≡ 0
    → Prelude.length (encode m be) ≤ size
    → size < 2 ^ 64
    → from_bytes (default_state2 raw) (some (encode m be ++ post)) size be
      ≡ ok (m, Prelude.length (encode m be))
unfolding from_bytes encode default_state2 get_behind
from_bytes-encode_state2 m raw post size be x z le lt =
    let front : List ℕ = Codec.encode m.state be in
    let whole : Prelude.length front + 44 ≤ size =
      omega (arith, length-append front (body be m), length-body be m) in
    let m' = record (default_state2 raw) { state = m.state } in
    let fits : Prelude.length front + sub_size (length m') (State.length m.state) ≤ size =
      rw (sub_size_lem (length m') (State.length m.state) (omega arith) (omega arith))
        (omega (arith, whole)) in
    rw (append_assoc front (body be m) post) (
      rw
        (Decode.from_bytes-encode_state m.state raw.state (body be m ++ post) size be x.state_valid
          (omega (arith, Codec.length-encode m.state be x.state_valid)) lt)
        (rw (room size (Prelude.length front) (sub_size (length m') (State.length m.state)) fits lt)
          ((get_fields-Reads be m raw x z).apply front post
            ∙ ap (λ n. ok (m, n)) (sym (length-append front (body be m))))))
