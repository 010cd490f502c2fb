-- ===== src/Message/State/Fields.antt =====
-- include/protocol/message/veh2cloud_state.h: the fields of VEH2CLOUD_STATE and its constructors.
use csae.Prelude.{
  ℕ, zero, suc, ◌+◌, ◌-◌, ◌*◌, ◌%◌, ◌^◌, Bool, none, some, List, [], ◌∷◌, ◌++◌, reverse, take,
  if◌then◌else◌, Run, ok, bind,
}
use csae.Prelude
use csae.Memory.Write.{splice}
use csae.Memory.Text.{strncpy, clip, eight_zeros}
use csae.Message.Header.{MessageHeader, sizeof_header, veh2cloud_state, new_header, default_init}

pub record Position : Type 0 where
  pub longitude : ℕ  -- uint32_t
  pub latitude : ℕ  -- uint32_t
  pub elevation : ℕ  -- uint32_t

pub record Position2D : Type 0 where
  pub longitude : ℕ  -- uint32_t
  pub latitude : ℕ  -- uint32_t

-- `MessageHeader` is the base class.
pub record Veh2CloudState : Type 0 where
  pub header : MessageHeader
  pub vehicle_id : List ℕ  -- char[8]
  pub message_id : List ℕ  -- uint8_t[8]
  pub gnss_timestamp : ℕ  -- uint64_t
  pub gnss_velocity : ℕ  -- uint16_t
  pub position : Position
  pub heading : ℕ  -- uint32_t
  pub gear : ℕ  -- uint8_t
  pub steering_angle : ℕ  -- uint32_t
  pub velocity : ℕ  -- uint16_t
  pub acc_lon : ℕ  -- uint16_t
  pub acc_lat : ℕ  -- uint16_t
  pub acc_ver : ℕ  -- uint16_t
  pub yaw_rate : ℕ  -- uint16_t
  pub accel_pos : ℕ  -- uint16_t
  pub engine_speed : ℕ  -- uint16_t
  pub engine_torque : ℕ  -- uint32_t
  pub break_flag : ℕ  -- uint8_t
  pub break_pos : ℕ  -- uint16_t
  pub break_pressure : ℕ  -- uint16_t
  pub fuel_consume : ℕ  -- uint16_t
  pub drive_mode : ℕ  -- uint8_t
  pub dest_location : Position2D
  pub pass_pos_num : ℕ  -- uint8_t
  pub pass_pos : List Position2D

-- sizeof(std::vector<…>); every use of it cancels against `sizeof_state`.
abbrev pub sizeof_vector : ℕ
sizeof_vector = 24

-- sizeof(Veh2CloudState), under `#pragma pack(1)`.
abbrev pub sizeof_state : ℕ
sizeof_state =
    sizeof_header
    + 8
    + 8
    + (8 + 2 + 3 * 4 + 4 + 1 + 4 + 7 * 2 + 4 + 1 + 3 * 2 + 1 + 2 * 4 + 1)
    + sizeof_vector

-- `message_id`, a number of eight bytes in the machine's order, in the order of the wire.
abbrev pub ordered : Bool → List ℕ → List ℕ
ordered be v = if be then reverse v else v

-- The constructor over the fields.
unfoldable pub new_state :
    (version timestamp ctrl : ℕ) (vehicle_id message_id : List ℕ) (gnss_timestamp gnss_velocity : ℕ)
    (position : Position)
    (heading gear steering_angle velocity acc_lon acc_lat acc_ver yaw_rate : ℕ)
    (accel_pos engine_speed engine_torque break_flag break_pos break_pressure : ℕ)
    (fuel_consume drive_mode : ℕ) (dest_location : Position2D) (pass_pos : List Position2D)
    → Veh2CloudState
unfolding strncpy splice new_header
new_state version timestamp ctrl vehicle_id message_id gnss_timestamp gnss_velocity position heading
      gear steering_angle velocity acc_lon acc_lat acc_ver yaw_rate accel_pos engine_speed
      engine_torque break_flag break_pos break_pressure fuel_consume drive_mode dest_location
      pass_pos =
    let count = Prelude.length pass_pos in
    let data_len = (sizeof_state - sizeof_header - sizeof_vector + count) % 2 ^ 32 in
    let id_size = clip 8 (Prelude.length message_id) in
    record {
      header = new_header data_len veh2cloud_state version timestamp ctrl;
      vehicle_id = strncpy eight_zeros vehicle_id (clip 8 (Prelude.length vehicle_id));
      message_id = splice 0 (take id_size message_id) eight_zeros;
      gnss_timestamp = gnss_timestamp;
      gnss_velocity = gnss_velocity;
      position = position;
      heading = heading;
      gear = gear;
      steering_angle = steering_angle;
      velocity = velocity;
      acc_lon = acc_lon;
      acc_lat = acc_lat;
      acc_ver = acc_ver;
      yaw_rate = yaw_rate;
      accel_pos = accel_pos;
      engine_speed = engine_speed;
      engine_torque = engine_torque;
      break_flag = break_flag;
      break_pos = break_pos;
      break_pressure = break_pressure;
      fuel_consume = fuel_consume;
      drive_mode = drive_mode;
      dest_location = dest_location;
      pass_pos_num = count % 256;
      pass_pos = pass_pos;
    }

-- What the constructor over a buffer starts from: the default initialisers, and whatever the
-- storage `raw` held in the fields that have none.
unfoldable pub default_state : Veh2CloudState → Veh2CloudState
unfolding default_init
default_state raw = record raw {
  header = default_init raw.header;
  vehicle_id = eight_zeros;
  message_id = eight_zeros;
  pass_pos = [];
}
