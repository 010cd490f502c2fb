-- ===== src/Message/State2/Print/Table.antt =====
-- The print of VEH2CLOUD_STATE version 2 against its wire format.
use mathlib.Core.Path.{subst}
use csae.Prelude.{
  ℕ, zero, suc, ◌+◌, ◌<◌, ◌^◌, ◌≡◌, true, List, [], ◌∷◌, ◌++◌, append_assoc, arith, length, All, ok,
}
use csae.Memory.Word.{IsByte}
use csae.Message.Print.{utf8, decimal}
use csae.Message.Print.Laws.{
  Prints, Row, render, render-append, Table, skip-Prints, seq-Prints, start-Prints,
}
use csae.Message.Print.Lines.{u8-Prints, u16-Prints, u32-Prints, put_text-Prints}
use csae.Message.State
use csae.Message.State.Codec
use csae.Message.State.Print.Table.{length-numbered, swapped, print-encode_state}
use csae.Message.State2.{Veh2CloudState2}
use csae.Message.State2.Codec.{each_bytes, body, IsValid}
use csae.Message.State2.Print.{put_wheels, put_flags, put_rows, print}

put_wheels-Prints :
    (label : List ℕ) (n i : ℕ) (v : List ℕ)
    → length label < 100
    → n ≡ length v
    → All (λ x. x < 2 ^ 16) v
    → Prints (put_wheels label n i v) (each_bytes true v)
unfolding put_wheels each_bytes
put_wheels-Prints label zero i [] few e r = skip-Prints
put_wheels-Prints label zero i (value ∷ v) few e r = absurd (omega arith)
put_wheels-Prints label (suc n) i [] few e r = absurd (omega arith)
put_wheels-Prints label (suc n) i (value ∷ v) few e (here, r) =
    seq-Prints
      (u16-Prints 4 value (utf8 "车轮" ++ (decimal i ++ label)) (omega arith)
        (length-numbered i (utf8 "车轮") label (omega arith)) here)
      (put_wheels-Prints label n (i + 1) v few (omega arith) r)

put_rows-Prints :
    (m : Veh2CloudState2) → IsValid m → m.user_data_len < 128 → Prints (put_rows m) (body true m)
unfolding put_rows put_flags body
put_rows-Prints m v user =
    seq-Prints (u8-Prints 2 m.abs_flag (utf8 "ABS状态") (omega arith) (omega arith) v.abs_flag_range)
      (seq-Prints
        (u8-Prints 2 m.tcs_flag (utf8 "TCS状态") (omega arith) (omega arith) v.tcs_flag_range)
        (seq-Prints
          (u8-Prints 2 m.esp_flag (utf8 "ESP状态") (omega arith) (omega arith) v.esp_flag_range)
          (seq-Prints
            (u8-Prints 2 m.lka_flag (utf8 "LKA状态") (omega arith) (omega arith) v.lka_flag_range)
            (seq-Prints
              (u8-Prints 2 m.acc_flag (utf8 "ACC工作模式") (omega arith) (omega arith) v.acc_flag_range)
              (seq-Prints
                (u8-Prints 2 m.fcw_flag (utf8 "FCW状态") (omega arith) (omega arith) v.fcw_flag_range)
                (seq-Prints
                  (u8-Prints 2 m.ldw_flag (utf8 "LDW状态") (omega arith) (omega arith)
                    v.ldw_flag_range)
                  (seq-Prints
                    (u8-Prints 2 m.aeb_flag (utf8 "AEB状态") (omega arith) (omega arith)
                      v.aeb_flag_range)
                    (seq-Prints
                      (u8-Prints 2 m.lca_flag (utf8 "LCA状态") (omega arith) (omega arith)
                        v.lca_flag_range)
                      (seq-Prints
                        (u8-Prints 2 m.dms_flag (utf8 "DMS状态") (omega arith) (omega arith)
                          v.dms_flag_range)
                        (seq-Prints
                          (u32-Prints 8 m.mileage (utf8 "里程") (omega arith) (omega arith)
                            v.mileage_range)
                          (seq-Prints
                            (u16-Prints 4 m.fuel_gauge (utf8 "油量") (omega arith) (omega arith)
                              v.fuel_gauge_range)
                            (seq-Prints
                              (u16-Prints 4 m.soc (utf8 "电池剩余电量") (omega arith) (omega arith)
                                v.soc_range)
                              (seq-Prints
                                (u8-Prints 2 m.temperature (utf8 "电池温度") (omega arith) (omega arith)
                                  v.temperature_range)
                                (seq-Prints
                                  (u32-Prints 8 m.endurance (utf8 "预计续航里程") (omega arith)
                                    (omega arith) v.endurance_range)
                                  (seq-Prints
                                    (u16-Prints 4 m.vehfault (utf8 "车辆故障状态") (omega arith)
                                      (omega arith) v.vehfault_range)
                                    (seq-Prints
                                      (u16-Prints 4 m.motorspeed (utf8 "电机转速") (omega arith)
                                        (omega arith) v.motorspeed_range)
                                      (seq-Prints
                                        (u32-Prints 8 m.motortorque (utf8 "电机转矩") (omega arith)
                                          (omega arith) v.motortorque_range)
                                        (seq-Prints
                                          (u8-Prints 2 m.veh_mode (utf8 "运行模式") (omega arith)
                                            (omega arith) v.veh_mode_range)
                                          (seq-Prints
                                            (u8-Prints 2 m.charge_state (utf8 "充电状态") (omega arith)
                                              (omega arith) v.charge_state_range)
                                            (seq-Prints
                                              (u16-Prints 4 m.batt_vol (utf8 "动力电池实时电压")
                                                (omega arith) (omega arith) v.batt_vol_range)
                                              (seq-Prints
                                                (u16-Prints 4 m.batt_cur (utf8 "动力电池实时电流")
                                                  (omega arith) (omega arith) v.batt_cur_range)
                                                (seq-Prints
                                                  (u8-Prints 2 m.horn_state (utf8 "喇叭状态")
                                                    (omega arith) (omega arith) v.horn_state_range)
                                                  (seq-Prints
                                                    (u8-Prints 2 m.wheel_num (utf8 "车轮数")
                                                      (omega arith) (omega arith) v.wheel_num_few)
                                                    (seq-Prints
                                                      (put_wheels-Prints (utf8 "-轮速") m.wheel_num 0
                                                        m.wheel_velocity (omega arith)
                                                        v.wheel_velocity_size
                                                        v.wheel_velocity_range)
                                                      (seq-Prints
                                                        (put_wheels-Prints (utf8 "-胎压") m.wheel_num
                                                          0 m.tire_pressure (omega arith)
                                                          v.tire_pressure_size
                                                          v.tire_pressure_range)
                                                        (seq-Prints
                                                          (u16-Prints 4 m.lights (utf8 "车灯状态")
                                                            (omega arith) (omega arith)
                                                            v.lights_range)
                                                          (seq-Prints
                                                            (u16-Prints 4 m.doors (utf8 "车门状态")
                                                            (omega arith) (omega arith)
                                                            v.doors_range)
                                                            (seq-Prints
                                                            (u8-Prints 2 m.user_data_len
                                                            (utf8 "自定义字段长度") (omega arith)
                                                            (omega arith) v.user_data_few)
                                                            (put_text-Prints (utf8 "自定义字段内容")
                                                            m.user_data_len m.user_data
                                                            (omega arith) v.user_data_size
                                                            user)))))))))))))))))))))))))))))

-- Whatever the stream holds, the print of a valid Veh2CloudState2 whose message id consists of
-- bytes, with less than 128 bytes of user data and any number of points and wheels, puts two tables
-- behind it: one of the base's
-- big-endian wire format, with the two digits of each byte of `message_id` exchanged, and one of
-- the bytes behind that, whose offsets begin at 98 and the number of points.
pub print-encode_state2 :
    (os : List ℕ) (m : Veh2CloudState2)
    → IsValid m
    → All IsByte m.state.message_id
    → m.user_data_len < 128
    → (base_rows : List Row) × (rows : List Row) × (print os m
        ≡ ok (os ++ render (base_rows ++ rows)))
      × Table 0 base_rows (Codec.encode (swapped m.state) true)
      × Table (98 + length m.state.pass_pos) rows (body true m)
unfolding print
print-encode_state2 os m v bytes user =
    let (base_rows, e, t) = print-encode_state os m.state v.state_valid bytes in
    let (rows, e', t') =
      start-Prints (os ++ render base_rows) (State.length m.state) (put_rows-Prints m v user) in
    (
      base_rows,
      rows,
      rw (e, e', render-append, append_assoc),
      t,
      subst (λ o. Table o rows (body true m)) (omega arith) t',
    )
