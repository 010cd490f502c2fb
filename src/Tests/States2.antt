-- ===== src/Tests/States2.antt =====
-- VEH2CLOUD_STATE messages of version 2 for the examples, and that they are valid.
use csae.Prelude.{refl, [], ◌∷◌, arith}
use csae.Message.State.{Veh2CloudState}
use csae.Message.State.Codec as StateCodec
use csae.Message.State2.{Veh2CloudState2}
use csae.Message.State2.Codec as State2Codec
use csae.Tests.Handshake.{
  eight, state2_header, state2_header-IsValid, wheels_header, wheels_header-IsValid,
}

abbrev pub base_sample : Veh2CloudState
base_sample = record {
  header = state2_header;
  vehicle_id = eight;
  message_id = eight;
  gnss_timestamp = 1612137600000;
  gnss_velocity = 7;
  position = record { longitude = 1163973900; latitude = 399087200; elevation = 50000 };
  heading = 9;
  gear = 10;
  steering_angle = 11;
  velocity = 12;
  acc_lon = 13;
  acc_lat = 14;
  acc_ver = 15;
  yaw_rate = 16;
  accel_pos = 17;
  engine_speed = 18;
  engine_torque = 19;
  break_flag = 20;
  break_pos = 21;
  break_pressure = 22;
  fuel_consume = 23;
  drive_mode = 24;
  dest_location = record { longitude = 1164000000; latitude = 399000000 };
  pass_pos_num = 0;
  pass_pos = [];
}

pub base_sample-IsValid : StateCodec.IsValid base_sample
base_sample-IsValid = record {
  header_valid = state2_header-IsValid;
  vehicle_id_size = refl;
  message_id_size = refl;
  gnss_timestamp_range = omega arith;
  gnss_velocity_range = omega arith;
  position_longitude_range = omega arith;
  position_latitude_range = omega arith;
  position_elevation_range = omega arith;
  heading_range = omega arith;
  gear_range = omega arith;
  steering_angle_range = omega arith;
  velocity_range = omega arith;
  acc_lon_range = omega arith;
  acc_lat_range = omega arith;
  acc_ver_range = omega arith;
  yaw_rate_range = omega arith;
  accel_pos_range = omega arith;
  engine_speed_range = omega arith;
  engine_torque_range = omega arith;
  break_flag_range = omega arith;
  break_pos_range = omega arith;
  break_pressure_range = omega arith;
  fuel_consume_range = omega arith;
  drive_mode_range = omega arith;
  dest_location_longitude_range = omega arith;
  dest_location_latitude_range = omega arith;
  pass_pos_size = refl;
  pass_pos_few = omega arith;
  pass_pos_range = tt;
}

abbrev pub state2_sample : Veh2CloudState2
state2_sample = record {
  state = base_sample;
  abs_flag = 1;
  tcs_flag = 2;
  esp_flag = 3;
  lka_flag = 4;
  acc_flag = 5;
  fcw_flag = 6;
  ldw_flag = 7;
  aeb_flag = 8;
  lca_flag = 9;
  dms_flag = 10;
  mileage = 11;
  fuel_gauge = 12;
  soc = 13;
  temperature = 14;
  endurance = 15;
  vehfault = 16;
  motorspeed = 17;
  motortorque = 18;
  veh_mode = 19;
  charge_state = 20;
  batt_vol = 21;
  batt_cur = 22;
  horn_state = 23;
  wheel_num = 0;
  wheel_velocity = [];
  tire_pressure = [];
  lights = 27;
  doors = 28;
  user_data_len = 2;
  user_data = 0x68 ∷ 0x69 ∷ [];
}

pub state2_sample-IsValid : State2Codec.IsValid state2_sample
state2_sample-IsValid = record {
  state_valid = base_sample-IsValid;
  abs_flag_range = omega arith;
  tcs_flag_range = omega arith;
  esp_flag_range = omega arith;
  lka_flag_range = omega arith;
  acc_flag_range = omega arith;
  fcw_flag_range = omega arith;
  ldw_flag_range = omega arith;
  aeb_flag_range = omega arith;
  lca_flag_range = omega arith;
  dms_flag_range = omega arith;
  mileage_range = omega arith;
  fuel_gauge_range = omega arith;
  soc_range = omega arith;
  temperature_range = omega arith;
  endurance_range = omega arith;
  vehfault_range = omega arith;
  motorspeed_range = omega arith;
  motortorque_range = omega arith;
  veh_mode_range = omega arith;
  charge_state_range = omega arith;
  batt_vol_range = omega arith;
  batt_cur_range = omega arith;
  horn_state_range = omega arith;
  lights_range = omega arith;
  doors_range = omega arith;
  wheel_num_few = omega arith;
  wheel_velocity_size = refl;
  tire_pressure_size = refl;
  wheel_velocity_range = omega arith;
  tire_pressure_range = omega arith;
  user_data_size = refl;
  user_data_few = omega arith;
}

abbrev pub wheels_base : Veh2CloudState
wheels_base = record base_sample { header = wheels_header }

pub wheels_base-IsValid : StateCodec.IsValid wheels_base
wheels_base-IsValid = record {
  header_valid = wheels_header-IsValid;
  vehicle_id_size = refl;
  message_id_size = refl;
  gnss_timestamp_range = omega arith;
  gnss_velocity_range = omega arith;
  position_longitude_range = omega arith;
  position_latitude_range = omega arith;
  position_elevation_range = omega arith;
  heading_range = omega arith;
  gear_range = omega arith;
  steering_angle_range = omega arith;
  velocity_range = omega arith;
  acc_lon_range = omega arith;
  acc_lat_range = omega arith;
  acc_ver_range = omega arith;
  yaw_rate_range = omega arith;
  accel_pos_range = omega arith;
  engine_speed_range = omega arith;
  engine_torque_range = omega arith;
  break_flag_range = omega arith;
  break_pos_range = omega arith;
  break_pressure_range = omega arith;
  fuel_consume_range = omega arith;
  drive_mode_range = omega arith;
  dest_location_longitude_range = omega arith;
  dest_location_latitude_range = omega arith;
  pass_pos_size = refl;
  pass_pos_few = omega arith;
  pass_pos_range = tt;
}

abbrev pub wheels_sample : Veh2CloudState2
wheels_sample = record {
  state = wheels_base;
  abs_flag = 1;
  tcs_flag = 2;
  esp_flag = 3;
  lka_flag = 4;
  acc_flag = 5;
  fcw_flag = 6;
  ldw_flag = 7;
  aeb_flag = 8;
  lca_flag = 9;
  dms_flag = 10;
  mileage = 11;
  fuel_gauge = 12;
  soc = 13;
  temperature = 14;
  endurance = 15;
  vehfault = 16;
  motorspeed = 17;
  motortorque = 18;
  veh_mode = 19;
  charge_state = 20;
  batt_vol = 21;
  batt_cur = 22;
  horn_state = 23;
  wheel_num = 2;
  wheel_velocity = 700 ∷ 701 ∷ [];
  tire_pressure = 240 ∷ 241 ∷ [];
  lights = 27;
  doors = 28;
  user_data_len = 2;
  user_data = 0x68 ∷ 0x69 ∷ [];
}

pub wheels_sample-IsValid : State2Codec.IsValid wheels_sample
wheels_sample-IsValid = record {
  state_valid = wheels_base-IsValid;
  abs_flag_range = omega arith;
  tcs_flag_range = omega arith;
  esp_flag_range = omega arith;
  lka_flag_range = omega arith;
  acc_flag_range = omega arith;
  fcw_flag_range = omega arith;
  ldw_flag_range = omega arith;
  aeb_flag_range = omega arith;
  lca_flag_range = omega arith;
  dms_flag_range = omega arith;
  mileage_range = omega arith;
  fuel_gauge_range = omega arith;
  soc_range = omega arith;
  temperature_range = omega arith;
  endurance_range = omega arith;
  vehfault_range = omega arith;
  motorspeed_range = omega arith;
  motortorque_range = omega arith;
  veh_mode_range = omega arith;
  charge_state_range = omega arith;
  batt_vol_range = omega arith;
  batt_cur_range = omega arith;
  horn_state_range = omega arith;
  lights_range = omega arith;
  doors_range = omega arith;
  wheel_num_few = omega arith;
  wheel_velocity_size = refl;
  tire_pressure_size = refl;
  wheel_velocity_range = omega arith;
  tire_pressure_range = omega arith;
  user_data_size = refl;
  user_data_few = omega arith;
}
