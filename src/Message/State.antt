-- ===== src/Message/State.antt =====
-- include/protocol/message/veh2cloud_state.h, VEH2CLOUD_STATE: where the vehicle is and what it does.
pub mod Fields
pub mod Codec
pub mod Decode
pub mod Print
use csae.Prelude.{
  ℕ, zero, suc, ◌+◌, ◌-◌, ◌*◌, ◌%◌, ◌^◌, Bool, none, some, List, [], ◌∷◌, ◌++◌, reverse, take,
  if◌then◌else◌, Run, ok, bind,
}
use csae.Prelude
use csae.Memory.Word.{sub_size}
use csae.Memory.Read.{Reader, ◌>>=◌, done, get_byte, get_word, get_bytes}
use csae.Memory.Write.{Writer, ◌>>◌, skip, out_of_bounds, splice, put_byte, put_word, put_copy}
use csae.Memory.Buffer.{Buffer, put_behind, get_behind}
use csae.Memory.Text.{strncpy, clip, eight_zeros}
use csae.Message.Header
use csae.Message.Header.{MessageHeader, sizeof_header, veh2cloud_state, new_header, default_init}
pub use Fields.{Position, Position2D, Veh2CloudState, sizeof_vector, sizeof_state, ordered}
unfoldable pub use Fields.{new_state, default_state}

-- The points that the route passes are counted here, not their bytes.
abbrev pub length : Veh2CloudState → ℕ
length m = sizeof_state - sizeof_vector + Prelude.length m.pass_pos

-- The loop that reads `n` more points and appends each to `pass_pos`.
unfoldable pub get_positions : Bool → ℕ → List Position2D → Reader (List Position2D)
unfolding ◌>>=◌ done get_word
get_positions be zero pass_pos = done pass_pos
get_positions be (suc n) pass_pos = do
  longitude ← get_word be 4
  latitude ← get_word be 4
  get_positions be n (pass_pos ++ (record { longitude = longitude; latitude = latitude } ∷ []))

-- The body of `from_bytes`, from `vehicle_id` on; `m` is the message before it.
unfoldable pub get_fields : Bool → Veh2CloudState → Reader Veh2CloudState
unfolding ◌>>=◌ done get_byte get_word get_bytes get_positions
get_fields be m = do
  vehicle_id ← get_bytes 8
  v ← get_bytes 8
  gnss_timestamp ← get_word be 8
  gnss_velocity ← get_word be 2
  position_longitude ← get_word be 4
  position_latitude ← get_word be 4
  position_elevation ← get_word be 4
  heading ← get_word be 4
  gear ← get_byte
  steering_angle ← get_word be 4
  velocity ← get_word be 2
  acc_lon ← get_word be 2
  acc_lat ← get_word be 2
  acc_ver ← get_word be 2
  yaw_rate ← get_word be 2
  accel_pos ← get_word be 2
  engine_speed ← get_word be 2
  engine_torque ← get_word be 4
  break_flag ← get_byte
  break_pos ← get_word be 2
  break_pressure ← get_word be 2
  fuel_consume ← get_word be 2
  drive_mode ← get_byte
  dest_location_longitude ← get_word be 4
  dest_location_latitude ← get_word be 4
  pass_pos_num ← get_byte
  pass_pos ← get_positions be pass_pos_num m.pass_pos
  done (record {
    header = m.header;
    vehicle_id = vehicle_id;
    message_id = ordered be v;
    gnss_timestamp = gnss_timestamp;
    gnss_velocity = gnss_velocity;
    position = record {
      longitude = position_longitude;
      latitude = position_latitude;
      elevation = position_elevation;
    };
    heading = heading;
    gear = gear;
    steering_angle = steering_angle;
    velocity = velocity;
    acc_lon = acc_lon;
    acc_lat = acc_lat;
    acc_ver = acc_ver;
    yaw_rate = yaw_rate;
    accel_pos = accel_pos;
    engine_speed = engine_speed;
    engine_torque = engine_torque;
    break_flag = break_flag;
    break_pos = break_pos;
    break_pressure = break_pressure;
    fuel_consume = fuel_consume;
    drive_mode = drive_mode;
    dest_location = record {
      longitude = dest_location_longitude;
      latitude = dest_location_latitude;
    };
    pass_pos_num = pass_pos_num;
    pass_pos = pass_pos;
  })

unfoldable pub from_bytes : Veh2CloudState → Buffer → ℕ → Bool → Run (Veh2CloudState × ℕ)
unfolding get_fields Header.from_bytes get_behind
from_bytes m none size be = ok (m, 0)
from_bytes m (some buf) size be = bind (Header.from_bytes m.header (some buf) size be) λ p.
    let m' = record m { header = p.0 } in
    let len = sub_size (length m') sizeof_header in
    get_behind m' (get_fields be m') size len (some buf) p.1

-- The loop that writes the first `n` points; `pass_pos[i]` must be there.
unfoldable pub put_positions : Bool → ℕ → List Position2D → Writer
unfolding ◌>>◌ skip out_of_bounds put_word
put_positions be zero pass_pos = skip
put_positions be (suc n) [] = out_of_bounds
put_positions be (suc n) (pos ∷ pass_pos) = do
  put_word be 4 pos.longitude
  put_word be 4 pos.latitude
  put_positions be n pass_pos

-- The body of `to_bytes`, from `vehicle_id` on.
unfoldable pub put_fields : Bool → Veh2CloudState → Writer
unfolding ◌>>◌ put_byte put_word put_copy put_positions
put_fields be m = do
  put_copy m.vehicle_id 8
  put_copy (ordered be m.message_id) 8
  put_word be 8 m.gnss_timestamp
  put_word be 2 m.gnss_velocity
  put_word be 4 m.position.longitude
  put_word be 4 m.position.latitude
  put_word be 4 m.position.elevation
  put_word be 4 m.heading
  put_byte m.gear
  put_word be 4 m.steering_angle
  put_word be 2 m.velocity
  put_word be 2 m.acc_lon
  put_word be 2 m.acc_lat
  put_word be 2 m.acc_ver
  put_word be 2 m.yaw_rate
  put_word be 2 m.accel_pos
  put_word be 2 m.engine_speed
  put_word be 4 m.engine_torque
  put_byte m.break_flag
  put_word be 2 m.break_pos
  put_word be 2 m.break_pressure
  put_word be 2 m.fuel_consume
  put_byte m.drive_mode
  put_word be 4 m.dest_location.longitude
  put_word be 4 m.dest_location.latitude
  put_byte m.pass_pos_num
  put_positions be m.pass_pos_num m.pass_pos

unfoldable pub to_bytes : Veh2CloudState → Buffer → ℕ → Bool → Run (Buffer × ℕ)
unfolding put_fields Header.to_bytes put_behind
to_bytes m none size be = ok (none, 0)
to_bytes m (some buf) size be =
    let len = sub_size (length m) sizeof_header in
    bind (Header.to_bytes m.header (some buf) size be)
      (λ p. put_behind (put_fields be m) size len p.0 p.1)
