-- ===== src/Message/State2.antt =====
-- include/protocol/message/veh2cloud_state.h, VEH2CLOUD_STATE version 2.
pub mod Fields
pub mod Codec
pub mod Decode
pub mod Print
use csae.Prelude.{
  ℕ, zero, suc, ◌+◌, ◌-◌, ◌*◌, ◌%◌, ◌^◌, Bool, none, some, List, [], ◌∷◌, take, Run, ok, bind,
}
use csae.Prelude
use csae.Memory.Word.{sub_size}
use csae.Memory.Read.{Reader, ◌>>=◌, done, outside, get_byte, get_word}
use csae.Memory.Write.{Writer, ◌>>◌, skip, out_of_bounds, splice, put_byte, put_word}
use csae.Memory.Buffer.{Buffer, put_behind, get_behind}
use csae.Memory.Text.{strncpy, clip, put_user_data, get_user_data}
use csae.Message.Header.{sizeof_header}
use csae.Message.State
use csae.Message.State.{
  Position, Position2D, Veh2CloudState, sizeof_state, sizeof_vector, new_state, default_state,
}
use csae.Message.Inh.{sizeof_string}
pub use Fields.{Veh2CloudState2, sizeof_state2, net_size}
unfoldable pub use Fields.{new_state2, default_state2}

abbrev pub length : Veh2CloudState2 → ℕ
length m = net_size sizeof_state2 m.state.pass_pos m.wheel_velocity m.tire_pressure m.user_data

-- The loop over `wheel_velocity[i] = …`, or `tire_pressure[i]`: element `i` must be there already.
unfoldable pub get_each : Bool → ℕ → List ℕ → Reader (List ℕ)
unfolding ◌>>=◌ done outside get_word
get_each be zero v = done v
get_each be (suc n) [] = outside
get_each be (suc n) (old ∷ v) = do
  value ← get_word be 2
  rest ← get_each be n v
  done (value ∷ rest)

-- The body of `from_bytes`, from `abs_flag` on; `m` is the message before it.
unfoldable pub get_fields : Bool → Veh2CloudState2 → Reader Veh2CloudState2
unfolding ◌>>=◌ done get_byte get_word get_each get_user_data
get_fields be m = do
  abs_flag ← get_byte
  tcs_flag ← get_byte
  esp_flag ← get_byte
  lka_flag ← get_byte
  acc_flag ← get_byte
  fcw_flag ← get_byte
  ldw_flag ← get_byte
  aeb_flag ← get_byte
  lca_flag ← get_byte
  dms_flag ← get_byte
  mileage ← get_word be 4
  fuel_gauge ← get_word be 2
  soc ← get_word be 2
  temperature ← get_byte
  endurance ← get_word be 4
  vehfault ← get_word be 2
  motorspeed ← get_word be 2
  motortorque ← get_word be 4
  veh_mode ← get_byte
  charge_state ← get_byte
  batt_vol ← get_word be 2
  batt_cur ← get_word be 2
  horn_state ← get_byte
  wheel_num ← get_byte
  wheel_velocity ← get_each be wheel_num m.wheel_velocity
  tire_pressure ← get_each be wheel_num m.tire_pressure
  lights ← get_word be 2
  doors ← get_word be 2
  user_data_len ← get_byte
  user_data ← get_user_data user_data_len m.user_data
  done (record {
    state = m.state;
    abs_flag = abs_flag;
    tcs_flag = tcs_flag;
    esp_flag = esp_flag;
    lka_flag = lka_flag;
    acc_flag = acc_flag;
    fcw_flag = fcw_flag;
    ldw_flag = ldw_flag;
    aeb_flag = aeb_flag;
    lca_flag = lca_flag;
    dms_flag = dms_flag;
    mileage = mileage;
    fuel_gauge = fuel_gauge;
    soc = soc;
    temperature = temperature;
    endurance = endurance;
    vehfault = vehfault;
    motorspeed = motorspeed;
    motortorque = motortorque;
    veh_mode = veh_mode;
    charge_state = charge_state;
    batt_vol = batt_vol;
    batt_cur = batt_cur;
    horn_state = horn_state;
    wheel_num = wheel_num;
    wheel_velocity = wheel_velocity;
    tire_pressure = tire_pressure;
    lights = lights;
    doors = doors;
    user_data_len = user_data_len;
    user_data = user_data;
  })

unfoldable pub from_bytes : Veh2CloudState2 → Buffer → ℕ → Bool → Run (Veh2CloudState2 × ℕ)
unfolding get_fields State.from_bytes get_behind
from_bytes m none size be = ok (m, 0)
from_bytes m (some buf) size be = bind (State.from_bytes m.state (some buf) size be) λ p.
    let m' = record m { state = p.0 } in
    let len = sub_size (length m') (State.length m'.state) in
    get_behind m' (get_fields be m') size len (some buf) p.1

-- The loop over `wheel_velocity[i]`, or `tire_pressure[i]`.
unfoldable pub put_each : Bool → ℕ → List ℕ → Writer
unfolding ◌>>◌ skip out_of_bounds put_word
put_each be zero v = skip
put_each be (suc n) [] = out_of_bounds
put_each be (suc n) (value ∷ v) = do put_word be 2 value; put_each be n v

-- The body of `to_bytes`, from `abs_flag` on.
unfoldable pub put_fields : Bool → Veh2CloudState2 → Writer
unfolding ◌>>◌ put_byte put_word put_each put_user_data
put_fields be m = do
  put_byte m.abs_flag
  put_byte m.tcs_flag
  put_byte m.esp_flag
  put_byte m.lka_flag
  put_byte m.acc_flag
  put_byte m.fcw_flag
  put_byte m.ldw_flag
  put_byte m.aeb_flag
  put_byte m.lca_flag
  put_byte m.dms_flag
  put_word be 4 m.mileage
  put_word be 2 m.fuel_gauge
  put_word be 2 m.soc
  put_byte m.temperature
  put_word be 4 m.endurance
  put_word be 2 m.vehfault
  put_word be 2 m.motorspeed
  put_word be 4 m.motortorque
  put_byte m.veh_mode
  put_byte m.charge_state
  put_word be 2 m.batt_vol
  put_word be 2 m.batt_cur
  put_byte m.horn_state
  put_byte m.wheel_num
  put_each be m.wheel_num m.wheel_velocity
  put_each be m.wheel_num m.tire_pressure
  put_word be 2 m.lights
  put_word be 2 m.doors
  put_byte m.user_data_len
  put_user_data m.user_data_len m.user_data

unfoldable pub to_bytes : Veh2CloudState2 → Buffer → ℕ → Bool → Run (Buffer × ℕ)
unfolding put_fields State.to_bytes put_behind
to_bytes m none size be = ok (none, 0)
to_bytes m (some buf) size be =
    let len = sub_size (length m) (State.length m.state) in
    bind (State.to_bytes m.state (some buf) size be)
      (λ p. put_behind (put_fields be m) size len p.0 p.1)
