-- ===== src/Packer/Constructed/States.antt =====
-- The packer on state messages that a constructor made.
use csae.Prelude.{ℕ, ◌+◌, ◌<◌, ◌≡◌, refl, ap, Option, some, List, [], arith, length, ok, fault}
use csae.Message.Header.{veh2cloud_state, version_01, new_header}
use csae.Message.State.{Position, Position2D, Veh2CloudState, new_state}
use csae.Message.State.Codec as StateCodec
use csae.Packer.{state_message, state, Handler, Storage, notify, pack}
use csae.Packer.Unpack.{IsFramed}
use csae.Packer.RoundTrip.{sent, unpack-pack_state}
use csae.Packer.Overflow.{pack-state_overflow}

module _ (version timestamp ctrl : ℕ) (vehicle_id message_id : List ℕ)
    (gnss_timestamp gnss_velocity : ℕ) (position : Position)
    (heading gear steering_angle velocity acc_lon acc_lat acc_ver yaw_rate : ℕ)
    (accel_pos engine_speed engine_torque break_flag break_pos break_pressure : ℕ)
    (fuel_consume drive_mode : ℕ) (dest_location : Position2D) (pass_pos : List Position2D) where
  -- What the constructor makes of its arguments.
  abbrev pub made : Veh2CloudState
  made =
      new_state version timestamp ctrl vehicle_id message_id gnss_timestamp gnss_velocity position
        heading gear steering_angle velocity acc_lon acc_lat acc_ver yaw_rate accel_pos engine_speed
        engine_torque break_flag break_pos break_pressure fuel_consume drive_mode dest_location
        pass_pos

  made-pass_pos : made.pass_pos ≡ pass_pos
  unfolding new_state
  made-pass_pos = refl

  made-few : StateCodec.IsValid made → length pass_pos < 256
  unfolding new_state
  made-few v = omega (arith, v.pass_pos_size, v.pass_pos_few)

  made-data_len : StateCodec.IsValid made → made.header.data_len ≡ 82 + length pass_pos
  unfolding new_state new_header
  made-data_len v = omega (arith, made-few v)

  made-IsFramed : (n : ℕ) → made.header.data_len ≡ n → IsFramed made.header veh2cloud_state n
  unfolding new_state new_header
  made-IsFramed n e = record { id_is = refl; type_is = refl; len_is = e }

  module _ (stack : ℕ → List ℕ) (room : (n : ℕ) → length (stack n) ≡ n) where
    -- Packing a valid VEH2CLOUD_STATE message that the constructor makes with at least one
    -- point on its route writes past the array on the stack.
    pub pack-new_state : StateCodec.IsValid made → 0 < length pass_pos → pack stack made ≡ fault
    unfolding new_state
    pack-new_state v h = pack-state_overflow stack room made v (made-data_len v) h

    -- A VEH2CLOUD_STATE message that the constructor makes with version 1 and without points on
    -- its route is unpacked from its packed bytes as it was, and handed to the handler, if it
    -- is valid.
    pub sent-new_state :
        {S : Type 0} (raw : Storage) (handler : Option (Handler S)) (s : S)
        → StateCodec.IsValid made
        → version ≡ version_01
        → pass_pos ≡ []
        → sent stack room raw handler s made ≡ ok (some (state made), notify handler (state made) s)
    unfolding new_state new_header
    sent-new_state raw handler s v one empty =
        let none : length pass_pos ≡ 0 = ap length empty in
        unpack-pack_state stack room raw handler s made v
          (made-IsFramed 82 (omega (arith, made-data_len v))) one empty
