-- ===== src/Message/State2/Print.antt =====
-- include/protocol/message/veh2cloud_state.h: operator<< of VEH2CLOUD_STATE version 2.
pub mod Table
use csae.Prelude.{ℕ, zero, suc, ◌+◌, List, [], ◌∷◌, ◌++◌, Run, bind}
use csae.Message.Print.{
  utf8, decimal, Printer, ◌>>◌, skip, out_of_bounds, start, finish, put_number, put_text,
}
use csae.Message.State
use csae.Message.State.Print
use csae.Message.State2.{Veh2CloudState2}

-- A loop over `n` more wheels, from number `i` on; an index behind the vector's end is a fault.
unfoldable pub put_wheels : List ℕ → ℕ → ℕ → List ℕ → Printer
unfolding ◌>>◌ skip out_of_bounds put_number
put_wheels label zero i v = skip
put_wheels label (suc n) i [] = out_of_bounds
put_wheels label (suc n) i (value ∷ v) = do
  put_number 4 (utf8 "车轮" ++ (decimal i ++ label)) 2 value
  put_wheels label n (i + 1) v

-- From `abs_flag` to `wheel_num`.
unfoldable pub put_flags : Veh2CloudState2 → Printer → Printer
unfolding ◌>>◌ put_number
put_flags m rest = do
  put_number 2 (utf8 "ABS状态") 1 m.abs_flag
  put_number 2 (utf8 "TCS状态") 1 m.tcs_flag
  put_number 2 (utf8 "ESP状态") 1 m.esp_flag
  put_number 2 (utf8 "LKA状态") 1 m.lka_flag
  put_number 2 (utf8 "ACC工作模式") 1 m.acc_flag
  put_number 2 (utf8 "FCW状态") 1 m.fcw_flag
  put_number 2 (utf8 "LDW状态") 1 m.ldw_flag
  put_number 2 (utf8 "AEB状态") 1 m.aeb_flag
  put_number 2 (utf8 "LCA状态") 1 m.lca_flag
  put_number 2 (utf8 "DMS状态") 1 m.dms_flag
  put_number 8 (utf8 "里程") 4 m.mileage
  put_number 4 (utf8 "油量") 2 m.fuel_gauge
  put_number 4 (utf8 "电池剩余电量") 2 m.soc
  put_number 2 (utf8 "电池温度") 1 m.temperature
  put_number 8 (utf8 "预计续航里程") 4 m.endurance
  put_number 4 (utf8 "车辆故障状态") 2 m.vehfault
  put_number 4 (utf8 "电机转速") 2 m.motorspeed
  put_number 8 (utf8 "电机转矩") 4 m.motortorque
  put_number 2 (utf8 "运行模式") 1 m.veh_mode
  put_number 2 (utf8 "充电状态") 1 m.charge_state
  put_number 4 (utf8 "动力电池实时电压") 2 m.batt_vol
  put_number 4 (utf8 "动力电池实时电流") 2 m.batt_cur
  put_number 2 (utf8 "喇叭状态") 1 m.horn_state
  put_number 2 (utf8 "车轮数") 1 m.wheel_num
  rest

unfoldable pub put_rows : Veh2CloudState2 → Printer
unfolding ◌>>◌ put_flags put_wheels put_number put_text
put_rows m = put_flags m do
  put_wheels (utf8 "-轮速") m.wheel_num 0 m.wheel_velocity
  put_wheels (utf8 "-胎压") m.wheel_num 0 m.tire_pressure
  put_number 4 (utf8 "车灯状态") 2 m.lights
  put_number 4 (utf8 "车门状态") 2 m.doors
  put_number 2 (utf8 "自定义字段长度") 1 m.user_data_len
  put_text (utf8 "自定义字段内容") m.user_data_len m.user_data

-- The offset goes on at the base's `length()`.
unfoldable pub print : List ℕ → Veh2CloudState2 → Run (List ℕ)
unfolding put_rows start Print.print
print os m =
    bind (Print.print os m.state) (λ os'. finish (put_rows m (start os' (State.length m.state))))
