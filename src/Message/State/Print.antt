-- ===== src/Message/State/Print.antt =====
-- include/protocol/message/veh2cloud_state.h: operator<< of VEH2CLOUD_STATE version 1.
pub mod Table
use csae.Prelude.{ℕ, zero, suc, ◌+◌, List, [], ◌∷◌, ◌++◌, Run, bind}
use csae.Message.Print.{
  utf8, decimal, Printer, ◌>>◌, skip, out_of_bounds, start, finish, put_number, put_vehicle_id,
  put_message_id,
}
use csae.Message.Header
use csae.Message.Header.Print
use csae.Message.State.{Position2D, Veh2CloudState}

-- The loop over `n` more points, from number `i` on; an index behind the vector's end is a fault.
unfoldable pub put_points : ℕ → ℕ → List Position2D → Printer
unfolding ◌>>◌ skip out_of_bounds put_number
put_points zero i pass_pos = skip
put_points (suc n) i [] = out_of_bounds
put_points (suc n) i (pos ∷ pass_pos) = do
  put_number 8 (utf8 "途经点" ++ (decimal i ++ utf8 "-经度")) 4 pos.longitude
  put_number 8 (utf8 "途经点" ++ (decimal i ++ utf8 "-纬度")) 4 pos.latitude
  put_points n (i + 1) pass_pos

unfoldable pub put_rows : Veh2CloudState → Printer
unfolding ◌>>◌ put_number put_vehicle_id put_message_id put_points
put_rows m = do
  put_vehicle_id m.vehicle_id
  put_message_id m.message_id
  put_number 16 (utf8 "GNSS时间戳") 8 m.gnss_timestamp
  put_number 4 (utf8 "GNSS速度") 2 m.gnss_velocity
  put_number 8 (utf8 "位置-经度") 4 m.position.longitude
  put_number 8 (utf8 "位置-纬度") 4 m.position.latitude
  put_number 8 (utf8 "位置-高程") 4 m.position.elevation
  put_number 8 (utf8 "航向角") 4 m.heading
  put_number 2 (utf8 "档位") 1 m.gear
  put_number 2 (utf8 "方向盘转角") 4 m.steering_angle
  put_number 4 (utf8 "当前车速") 2 m.velocity
  put_number 4 (utf8 "纵向加速度") 2 m.acc_lon
  put_number 4 (utf8 "横向加速度") 2 m.acc_lat
  put_number 4 (utf8 "垂向加速度") 2 m.acc_ver
  put_number 4 (utf8 "横摆角速度") 2 m.yaw_rate
  put_number 4 (utf8 "油门开度") 2 m.accel_pos
  put_number 4 (utf8 "发动机输出转速") 2 m.engine_speed
  put_number 8 (utf8 "发动机扭矩") 4 m.engine_torque
  put_number 2 (utf8 "制动踏板开关") 1 m.break_flag
  put_number 4 (utf8 "制动踏板开度") 2 m.break_pos
  put_number 4 (utf8 "制动主缸压力") 2 m.break_pressure
  put_number 4 (utf8 "油耗") 2 m.fuel_consume
  put_number 2 (utf8 "车辆驾驶模式") 1 m.drive_mode
  put_number 8 (utf8 "目的地位置-经度") 4 m.dest_location.longitude
  put_number 8 (utf8 "目的地位置-纬度") 4 m.dest_location.latitude
  put_number 2 (utf8 "途经点数量") 1 m.pass_pos_num
  put_points m.pass_pos_num 0 m.pass_pos

unfoldable pub print : List ℕ → Veh2CloudState → Run (List ℕ)
unfolding put_rows start Print.print
print os m =
    bind (Print.print os m.header) (λ os'. finish (put_rows m (start os' (Header.length m.header))))
