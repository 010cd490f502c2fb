-- ===== src/Example/Messages.antt =====
-- What the controller makes of the messages that the callback sends.
use csae.Prelude.{ℕ, ◌^◌, ◌<◌, ◌≡◌, refl, Option, some, List, [], ◌∷◌, arith, length, ok}
use csae.Message.Print.{utf8}
use csae.Message.State.Codec as StateCodec
use csae.Packer.{inh_message, state_message, AnyMessage, inh, state, Handler, Storage, notify}
use csae.Packer.RoundTrip.{sent}
use csae.Packer.Constructed.{HeaderInRange, InhInRange, sent-new_inh}
use csae.Packer.Constructed.States.{sent-new_state}
use csae.Example.{announcement, report}

pub report-IsValid : (t : ℕ) → t < 2 ^ 64 → StateCodec.IsValid (report t)
unfolding report
report-IsValid t h = record {
  header_valid = record {
    id_range = omega arith;
    data_len_range = omega arith;
    data_type_range = omega arith;
    version_range = omega arith;
    timestamp_range = h;
    ctrl_range = omega arith;
  };
  vehicle_id_size = refl;
  message_id_size = refl;
  gnss_timestamp_range = omega arith;
  gnss_velocity_range = omega arith;
  position_longitude_range = omega arith;
  position_latitude_range = omega arith;
  position_elevation_range = omega arith;
  heading_range = omega arith;
  gear_range = omega arith;
  steering_angle_range = omega arith;
  velocity_range = omega arith;
  acc_lon_range = omega arith;
  acc_lat_range = omega arith;
  acc_ver_range = omega arith;
  yaw_rate_range = omega arith;
  accel_pos_range = omega arith;
  engine_speed_range = omega arith;
  engine_torque_range = omega arith;
  break_flag_range = omega arith;
  break_pos_range = omega arith;
  break_pressure_range = omega arith;
  fuel_consume_range = omega arith;
  drive_mode_range = omega arith;
  dest_location_longitude_range = omega arith;
  dest_location_latitude_range = omega arith;
  pass_pos_size = refl;
  pass_pos_few = omega arith;
  pass_pos_range = tt;
}

pub in_range :
    InhInRange (utf8 "sw_v1.0") (utf8 "hw_v1.0") (utf8 "ad_v1.0") 0 15 2 0 (utf8 "VEH2CLOUD_INH")
in_range = record {
  sw_ver_short = omega arith;
  hw_ver_same = refl;
  ad_ver_same = refl;
  com_type_range = omega arith;
  pos_confidence_range = omega arith;
  time_sync_range = omega arith;
  gnss_type_range = omega arith;
  user_data_short = omega arith;
}

-- What arrives of an announcement: its first version in the place of the other two.
pub arrived : ℕ → AnyMessage
arrived t = inh (record (announcement t) { hw_ver = utf8 "sw_v1.0"; ad_ver = utf8 "sw_v1.0" })

module _ (stack : ℕ → List ℕ) (room : (n : ℕ) → length (stack n) ≡ n) {S : Type 0} (raw : Storage)
    (handler : Option (Handler S)) (s : S) where
  -- The announcement and the report of the example, at any time of 64 bits, are packed and
  -- unpacked, whatever the stack array and the storage held before: the report arrives as it was,
  -- the announcement with its first version in the place of the other two, and each is handed to
  -- the handler.
  pub sent-arrived :
      (t : ℕ)
      → t < 2 ^ 64
      → (sent stack room raw handler s (announcement t)
          ≡ ok (some (arrived t), notify handler (arrived t) s))
        × (sent stack room raw handler s (report t)
            ≡ ok (some (state (report t)), notify handler (state (report t)) s))
  unfolding announcement report arrived
  sent-arrived t h =
      let r : HeaderInRange 1 t 28 = record {
        version_range = omega arith;
        timestamp_range = h;
        ctrl_range = omega arith;
      } in
      (
        sent-new_inh stack room raw handler s 1 t 28 (utf8 "Q1001") (utf8 "sw_v1.0")
            (utf8 "hw_v1.0") (utf8 "ad_v1.0") 0 15 2 0 (utf8 "VEH2CLOUD_INH") r in_range,
        sent-new_state 1 t 28 (utf8 "Q1001") (1 ∷ []) t 4000
            (record { longitude = 90; latitude = 90; elevation = 700 }) 100000 31 200000 4100 500
            400 300 200 500 3000 50000 1 500 20000 1000 1 (record { longitude = 80; latitude = 80 })
            [] stack room raw handler s (report-IsValid t h) refl refl,
      )
