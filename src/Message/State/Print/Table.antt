-- ===== src/Message/State/Print/Table.antt =====
-- The print of VEH2CLOUD_STATE against its wire format.
use csae.Prelude.{
  ℕ, zero, suc, ◌+◌, ◌<◌, ◌≡◌, sym, true, List, [], ◌∷◌, ◌++◌, map, arith, length, length-append,
  All,
}
use csae.Memory.Word.{IsByte}
use csae.Message.Print.{utf8, decimal}
use csae.Message.Print.Digits.{swap_nibbles, length-decimal}
use csae.Message.Print.Laws.{Prints, skip-Prints, seq-Prints, behind-Prints, IsTable}
use csae.Message.Print.Lines.{
  u8-Prints, u16-Prints, u32-Prints, u64-Prints, put_vehicle_id-Prints, put_message_id-Prints,
}
use csae.Message.Header.Codec as HeaderCodec
use csae.Message.Header.Print.Table.{print-encode_header}
use csae.Message.State.{Position2D, Veh2CloudState}
use csae.Message.State.Codec.{positions_bytes, body, encode, PointIsValid, IsValid}
use csae.Message.State.Print.{put_points, put_rows, print}

-- A label with the number of a point in it is short.
pub length-numbered :
    (i : ℕ) (label label' : List ℕ)
    → length label + length label' < 400
    → length (label ++ (decimal i ++ label')) < 500
length-numbered i label label' few =
    rw (length-append, length-append) (omega (arith, length-decimal i))

put_points-Prints :
    (n i : ℕ) (pass_pos : List Position2D)
    → n ≡ length pass_pos
    → All PointIsValid pass_pos
    → Prints (put_points n i pass_pos) (positions_bytes true pass_pos)
unfolding put_points positions_bytes
put_points-Prints zero i [] e v = skip-Prints
put_points-Prints zero i (pos ∷ pass_pos) e v = absurd (omega arith)
put_points-Prints (suc n) i [] e v = absurd (omega arith)
put_points-Prints (suc n) i (pos ∷ pass_pos) e (here, v) =
    seq-Prints
      (u32-Prints 8 pos.longitude (utf8 "途经点" ++ (decimal i ++ utf8 "-经度")) (omega arith)
        (length-numbered i (utf8 "途经点") (utf8 "-经度") (omega arith)) here.0)
      (seq-Prints
        (u32-Prints 8 pos.latitude (utf8 "途经点" ++ (decimal i ++ utf8 "-纬度")) (omega arith)
          (length-numbered i (utf8 "途经点") (utf8 "-纬度") (omega arith)) here.1)
        (put_points-Prints n (i + 1) pass_pos (omega arith) v))

-- The message with the two digits of each byte of `message_id` exchanged.
abbrev pub swapped : Veh2CloudState → Veh2CloudState
swapped m = record m { message_id = map swap_nibbles m.message_id }

put_rows-Prints :
    (m : Veh2CloudState)
    → IsValid m
    → All IsByte m.message_id
    → Prints (put_rows m) (body true (swapped m))
unfolding put_rows body
put_rows-Prints m v bytes = seq-Prints (put_vehicle_id-Prints m.vehicle_id v.vehicle_id_size) (
    seq-Prints (put_message_id-Prints m.message_id v.message_id_size bytes) (
      seq-Prints
        (u64-Prints 16 m.gnss_timestamp (utf8 "GNSS时间戳") (omega arith) (omega arith)
          v.gnss_timestamp_range)
        (seq-Prints
          (u16-Prints 4 m.gnss_velocity (utf8 "GNSS速度") (omega arith) (omega arith)
            v.gnss_velocity_range)
          (seq-Prints
            (u32-Prints 8 m.position.longitude (utf8 "位置-经度") (omega arith) (omega arith)
              v.position_longitude_range)
            (seq-Prints
              (u32-Prints 8 m.position.latitude (utf8 "位置-纬度") (omega arith) (omega arith)
                v.position_latitude_range)
              (seq-Prints
                (u32-Prints 8 m.position.elevation (utf8 "位置-高程") (omega arith) (omega arith)
                  v.position_elevation_range)
                (seq-Prints
                  (u32-Prints 8 m.heading (utf8 "航向角") (omega arith) (omega arith) v.heading_range)
                  (seq-Prints
                    (u8-Prints 2 m.gear (utf8 "档位") (omega arith) (omega arith) v.gear_range)
                    (seq-Prints
                      (u32-Prints 2 m.steering_angle (utf8 "方向盘转角") (omega arith) (omega arith)
                        v.steering_angle_range)
                      (seq-Prints
                        (u16-Prints 4 m.velocity (utf8 "当前车速") (omega arith) (omega arith)
                          v.velocity_range)
                        (seq-Prints
                          (u16-Prints 4 m.acc_lon (utf8 "纵向加速度") (omega arith) (omega arith)
                            v.acc_lon_range)
                          (seq-Prints
                            (u16-Prints 4 m.acc_lat (utf8 "横向加速度") (omega arith) (omega arith)
                              v.acc_lat_range)
                            (seq-Prints
                              (u16-Prints 4 m.acc_ver (utf8 "垂向加速度") (omega arith) (omega arith)
                                v.acc_ver_range)
                              (seq-Prints
                                (u16-Prints 4 m.yaw_rate (utf8 "横摆角速度") (omega arith) (omega arith)
                                  v.yaw_rate_range)
                                (seq-Prints
                                  (u16-Prints 4 m.accel_pos (utf8 "油门开度") (omega arith)
                                    (omega arith) v.accel_pos_range)
                                  (seq-Prints
                                    (u16-Prints 4 m.engine_speed (utf8 "发动机输出转速") (omega arith)
                                      (omega arith) v.engine_speed_range)
                                    (seq-Prints
                                      (u32-Prints 8 m.engine_torque (utf8 "发动机扭矩") (omega arith)
                                        (omega arith) v.engine_torque_range)
                                      (seq-Prints
                                        (u8-Prints 2 m.break_flag (utf8 "制动踏板开关") (omega arith)
                                          (omega arith) v.break_flag_range)
                                        (seq-Prints
                                          (u16-Prints 4 m.break_pos (utf8 "制动踏板开度") (omega arith)
                                            (omega arith) v.break_pos_range)
                                          (seq-Prints
                                            (u16-Prints 4 m.break_pressure (utf8 "制动主缸压力")
                                              (omega arith) (omega arith) v.break_pressure_range)
                                            (seq-Prints
                                              (u16-Prints 4 m.fuel_consume (utf8 "油耗") (omega arith)
                                                (omega arith) v.fuel_consume_range)
                                              (seq-Prints
                                                (u8-Prints 2 m.drive_mode (utf8 "车辆驾驶模式")
                                                  (omega arith) (omega arith) v.drive_mode_range)
                                                (seq-Prints
                                                  (u32-Prints 8 m.dest_location.longitude
                                                    (utf8 "目的地位置-经度") (omega arith) (omega arith)
                                                    v.dest_location_longitude_range)
                                                  (seq-Prints
                                                    (u32-Prints 8 m.dest_location.latitude
                                                      (utf8 "目的地位置-纬度") (omega arith) (omega arith)
                                                      v.dest_location_latitude_range)
                                                    (seq-Prints
                                                      (u8-Prints 2 m.pass_pos_num (utf8 "途经点数量")
                                                        (omega arith) (omega arith) v.pass_pos_few)
                                                      (put_points-Prints m.pass_pos_num 0 m.pass_pos
                                                        v.pass_pos_size
                                                        v.pass_pos_range))))))))))))))))))))))))))

-- Whatever the stream holds, the print of a valid Veh2CloudState, with any number of points, puts a
-- table behind it, of the big-endian wire format of that message with the two digits of each byte
-- of `message_id` exchanged.
pub print-encode_state :
    (os : List ℕ) (m : Veh2CloudState)
    → IsValid m
    → All IsByte m.message_id
    → IsTable (print os m) os (encode (swapped m) true)
unfolding print encode
print-encode_state os m v bytes =
    behind-Prints os (print-encode_header os m.header v.header_valid)
      (sym (HeaderCodec.length-encode m.header true)) (put_rows-Prints m v bytes)
