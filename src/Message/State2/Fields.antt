-- ===== src/Message/State2/Fields.antt =====
-- include/protocol/message/veh2cloud_state.h: the fields of version 2 and its constructors.
use csae.Prelude.{
  ℕ, zero, suc, ◌+◌, ◌-◌, ◌*◌, ◌%◌, ◌^◌, Bool, none, some, List, [], ◌∷◌, take, Run, ok, bind,
}
use csae.Prelude
use csae.Memory.Write.{splice}
use csae.Memory.Text.{strncpy, clip}
use csae.Message.Header.{sizeof_header}
use csae.Message.State.{
  Position, Position2D, Veh2CloudState, sizeof_state, sizeof_vector, new_state, default_state,
}
use csae.Message.Inh.{sizeof_string}

-- `Veh2CloudState` is the base class.
pub record Veh2CloudState2 : Type 0 where
  pub state : Veh2CloudState
  pub abs_flag : ℕ  -- uint8_t
  pub tcs_flag : ℕ  -- uint8_t
  pub esp_flag : ℕ  -- uint8_t
  pub lka_flag : ℕ  -- uint8_t
  pub acc_flag : ℕ  -- uint8_t
  pub fcw_flag : ℕ  -- uint8_t
  pub ldw_flag : ℕ  -- uint8_t
  pub aeb_flag : ℕ  -- uint8_t
  pub lca_flag : ℕ  -- uint8_t
  pub dms_flag : ℕ  -- uint8_t
  pub mileage : ℕ  -- uint32_t
  pub fuel_gauge : ℕ  -- uint16_t
  pub soc : ℕ  -- uint16_t
  pub temperature : ℕ  -- uint8_t
  pub endurance : ℕ  -- uint32_t
  pub vehfault : ℕ  -- uint16_t
  pub motorspeed : ℕ  -- uint16_t
  pub motortorque : ℕ  -- uint32_t
  pub veh_mode : ℕ  -- uint8_t
  pub charge_state : ℕ  -- uint8_t
  pub batt_vol : ℕ  -- uint16_t
  pub batt_cur : ℕ  -- uint16_t
  pub horn_state : ℕ  -- uint8_t
  pub wheel_num : ℕ  -- uint8_t
  pub wheel_velocity : List ℕ  -- uint16_t each
  pub tire_pressure : List ℕ  -- uint16_t each
  pub lights : ℕ  -- uint16_t
  pub doors : ℕ  -- uint16_t
  pub user_data_len : ℕ  -- uint8_t
  pub user_data : List ℕ

-- sizeof(Veh2CloudState2), under `#pragma pack(1)`.
abbrev pub sizeof_state2 : ℕ
sizeof_state2 =
    sizeof_state
    + (10 + 4 + 2 * 2 + 1 + 4 + 2 * 2 + 4 + 2 + 2 * 2 + 1 + 1)
    + 2 * sizeof_vector
    + (2 * 2 + 1)
    + sizeof_string

-- `sizeof(Veh2CloudState2)` with each container's own size taken out and its `size()` put in.
abbrev pub net_size : ℕ → List Position2D → List ℕ → List ℕ → List ℕ → ℕ
net_size size pass_pos wheel_velocity tire_pressure user_data =
    size
    - sizeof_vector
    + Prelude.length pass_pos
    - sizeof_vector
    + Prelude.length wheel_velocity
    - sizeof_vector
    + Prelude.length tire_pressure
    - sizeof_string
    + Prelude.length user_data

-- The constructor over the fields.
unfoldable pub new_state2 :
    (version timestamp ctrl : ℕ) (vehicle_id message_id : List ℕ) (gnss_timestamp gnss_velocity : ℕ)
    (position : Position)
    (heading gear steering_angle velocity acc_lon acc_lat acc_ver yaw_rate : ℕ)
    (accel_pos engine_speed engine_torque break_flag break_pos break_pressure : ℕ)
    (fuel_consume drive_mode : ℕ) (dest_location : Position2D) (pass_pos : List Position2D)
    (abs_flag tcs_flag esp_flag lka_flag acc_flag fcw_flag ldw_flag aeb_flag lca_flag dms_flag : ℕ)
    (mileage fuel_gauge soc temperature endurance vehfault motorspeed motortorque : ℕ)
    (veh_mode charge_state batt_vol batt_cur horn_state : ℕ) (wheel_velocity tire_pressure : List ℕ)
    (lights doors : ℕ) (userdefined_data : List ℕ)
    → Veh2CloudState2
unfolding strncpy splice new_state
new_state2 version timestamp ctrl vehicle_id message_id gnss_timestamp gnss_velocity position
      heading gear steering_angle velocity acc_lon acc_lat acc_ver yaw_rate accel_pos engine_speed
      engine_torque break_flag break_pos break_pressure fuel_consume drive_mode dest_location
      pass_pos abs_flag tcs_flag esp_flag lka_flag acc_flag fcw_flag ldw_flag aeb_flag lca_flag
      dms_flag mileage fuel_gauge soc temperature endurance vehfault motorspeed motortorque veh_mode
      charge_state batt_vol batt_cur horn_state wheel_velocity tire_pressure lights doors
      userdefined_data =
    let base =
      new_state version timestamp ctrl vehicle_id message_id gnss_timestamp gnss_velocity position
        heading gear steering_angle velocity acc_lon acc_lat acc_ver yaw_rate accel_pos engine_speed
        engine_torque break_flag break_pos break_pressure fuel_consume drive_mode dest_location
        pass_pos in
    let data_len =
      net_size (sizeof_state2 - sizeof_header) pass_pos wheel_velocity tire_pressure
        userdefined_data
      % 2 ^ 32 in
    let id_size = clip 8 (Prelude.length message_id) in
    record {
      state = record base {
        header = record base.header { data_len = data_len };
        vehicle_id = strncpy base.vehicle_id vehicle_id (clip 8 (Prelude.length vehicle_id));
        message_id = splice 0 (take id_size message_id) base.message_id;
      };
      abs_flag = abs_flag;
      tcs_flag = tcs_flag;
      esp_flag = esp_flag;
      lka_flag = lka_flag;
      acc_flag = acc_flag;
      fcw_flag = fcw_flag;
      ldw_flag = ldw_flag;
      aeb_flag = aeb_flag;
      lca_flag = lca_flag;
      dms_flag = dms_flag;
      mileage = mileage;
      fuel_gauge = fuel_gauge;
      soc = soc;
      temperature = temperature;
      endurance = endurance;
      vehfault = vehfault;
      motorspeed = motorspeed;
      motortorque = motortorque;
      veh_mode = veh_mode;
      charge_state = charge_state;
      batt_vol = batt_vol;
      batt_cur = batt_cur;
      horn_state = horn_state;
      wheel_num = Prelude.length wheel_velocity % 256;
      wheel_velocity = wheel_velocity;
      tire_pressure = tire_pressure;
      lights = lights;
      doors = doors;
      user_data_len = Prelude.length userdefined_data % 256;
      user_data = userdefined_data;
    }

-- What the constructor over a buffer starts from: the default initialisers, and whatever the
-- storage `raw` held in the fields that have none.
unfoldable pub default_state2 : Veh2CloudState2 → Veh2CloudState2
unfolding default_state
default_state2 raw = record raw {
  state = default_state raw.state;
  wheel_velocity = [];
  tire_pressure = [];
  user_data = [];
}
