-- ===== src/Tests/States.antt =====
-- VEH2CLOUD_STATE messages for the examples, and that they are valid.
use csae.Prelude.{refl, [], ◌∷◌, arith}
use csae.Message.State.{Veh2CloudState}
use csae.Message.State.Codec as StateCodec
use csae.Tests.Handshake.{
  eight, state_header, state_header-IsValid, route_header, route_header-IsValid,
}

abbrev pub state_sample : Veh2CloudState
state_sample = record {
  header = state_header;
  vehicle_id = eight;
  message_id = eight;
  gnss_timestamp = 1612137600000;
  gnss_velocity = 7;
  position = record { longitude = 1163973900; latitude = 399087200; elevation = 50000 };
  heading = 9;
  gear = 10;
  steering_angle = 11;
  velocity = 12;
  acc_lon = 13;
  acc_lat = 14;
  acc_ver = 15;
  yaw_rate = 16;
  accel_pos = 17;
  engine_speed = 18;
  engine_torque = 19;
  break_flag = 20;
  break_pos = 21;
  break_pressure = 22;
  fuel_consume = 23;
  drive_mode = 24;
  dest_location = record { longitude = 1164000000; latitude = 399000000 };
  pass_pos_num = 0;
  pass_pos = [];
}

pub state_sample-IsValid : StateCodec.IsValid state_sample
state_sample-IsValid = record {
  header_valid = state_header-IsValid;
  vehicle_id_size = refl;
  message_id_size = refl;
  gnss_timestamp_range = omega arith;
  gnss_velocity_range = omega arith;
  position_longitude_range = omega arith;
  position_latitude_range = omega arith;
  position_elevation_range = omega arith;
  heading_range = omega arith;
  gear_range = omega arith;
  steering_angle_range = omega arith;
  velocity_range = omega arith;
  acc_lon_range = omega arith;
  acc_lat_range = omega arith;
  acc_ver_range = omega arith;
  yaw_rate_range = omega arith;
  accel_pos_range = omega arith;
  engine_speed_range = omega arith;
  engine_torque_range = omega arith;
  break_flag_range = omega arith;
  break_pos_range = omega arith;
  break_pressure_range = omega arith;
  fuel_consume_range = omega arith;
  drive_mode_range = omega arith;
  dest_location_longitude_range = omega arith;
  dest_location_latitude_range = omega arith;
  pass_pos_size = refl;
  pass_pos_few = omega arith;
  pass_pos_range = tt;
}

abbrev pub route_sample : Veh2CloudState
route_sample = record {
  header = route_header;
  vehicle_id = eight;
  message_id = eight;
  gnss_timestamp = 1612137600000;
  gnss_velocity = 7;
  position = record { longitude = 1163973900; latitude = 399087200; elevation = 50000 };
  heading = 9;
  gear = 10;
  steering_angle = 11;
  velocity = 12;
  acc_lon = 13;
  acc_lat = 14;
  acc_ver = 15;
  yaw_rate = 16;
  accel_pos = 17;
  engine_speed = 18;
  engine_torque = 19;
  break_flag = 20;
  break_pos = 21;
  break_pressure = 22;
  fuel_consume = 23;
  drive_mode = 24;
  dest_location = record { longitude = 1164000000; latitude = 399000000 };
  pass_pos_num = 2;
  pass_pos =
      record { longitude = 1; latitude = 2 } ∷ record { longitude = 3; latitude = 0xfffffffe } ∷ [];
}

pub route_sample-IsValid : StateCodec.IsValid route_sample
route_sample-IsValid = record {
  header_valid = route_header-IsValid;
  vehicle_id_size = refl;
  message_id_size = refl;
  gnss_timestamp_range = omega arith;
  gnss_velocity_range = omega arith;
  position_longitude_range = omega arith;
  position_latitude_range = omega arith;
  position_elevation_range = omega arith;
  heading_range = omega arith;
  gear_range = omega arith;
  steering_angle_range = omega arith;
  velocity_range = omega arith;
  acc_lon_range = omega arith;
  acc_lat_range = omega arith;
  acc_ver_range = omega arith;
  yaw_rate_range = omega arith;
  accel_pos_range = omega arith;
  engine_speed_range = omega arith;
  engine_torque_range = omega arith;
  break_flag_range = omega arith;
  break_pos_range = omega arith;
  break_pressure_range = omega arith;
  fuel_consume_range = omega arith;
  drive_mode_range = omega arith;
  dest_location_longitude_range = omega arith;
  dest_location_latitude_range = omega arith;
  pass_pos_size = refl;
  pass_pos_few = omega arith;
  pass_pos_range = ((omega arith, omega arith), ((omega arith, omega arith), tt));
}
