-- ===== src/Message/State/Codec.antt =====
-- The fields of VEH2CLOUD_STATE on the wire.
use csae.Prelude.{
  ℕ, zero, suc, ◌+◌, ◌-◌, ◌*◌, ◌^◌, ◌≤◌, ◌<◌, ◌≡◌, refl, ◌∙◌, Bool, true, false, some, List, [],
  ◌∷◌, ◌++◌, arith, leb, if◌then◌else◌, length-append, length-reverse, chain, All, Run, ok, fault,
}
use csae.Prelude
use csae.Memory.Word.{word_bytes, length-word_bytes}
use csae.Memory.Write.{◌>>◌, splice}
use csae.Memory.Write.Laws.{Writes, seq-Writes, skip-Writes, put_byte-Writes, put_word-Writes}
use csae.Memory.Buffer.{keep}
use csae.Memory.Buffer.Laws.{put_behind-Writes, keep-Writes}
use csae.Memory.Text.Laws.{put_eight-Writes}
use csae.Message.Header.{sizeof_header}
use csae.Message.Header
use csae.Message.Header.Codec
use csae.Message.State.{
  Position2D, Veh2CloudState, ordered, length, put_positions, put_fields, to_bytes,
}

-- Eight bytes for each point.
unfoldable pub positions_bytes : Bool → List Position2D → List ℕ
positions_bytes be [] = []
positions_bytes be (pos ∷ pass_pos) =
    word_bytes be 4 pos.longitude ++ (word_bytes be 4 pos.latitude ++ positions_bytes be pass_pos)

-- What `to_bytes` puts behind the header.
unfoldable pub body : Bool → Veh2CloudState → List ℕ
body be m = chain (
    m.vehicle_id
    ∷ ordered be m.message_id
    ∷ word_bytes be 8 m.gnss_timestamp
    ∷ word_bytes be 2 m.gnss_velocity
    ∷ word_bytes be 4 m.position.longitude
    ∷ word_bytes be 4 m.position.latitude
    ∷ word_bytes be 4 m.position.elevation
    ∷ word_bytes be 4 m.heading
    ∷ word_bytes false 1 m.gear
    ∷ word_bytes be 4 m.steering_angle
    ∷ word_bytes be 2 m.velocity
    ∷ word_bytes be 2 m.acc_lon
    ∷ word_bytes be 2 m.acc_lat
    ∷ word_bytes be 2 m.acc_ver
    ∷ word_bytes be 2 m.yaw_rate
    ∷ word_bytes be 2 m.accel_pos
    ∷ word_bytes be 2 m.engine_speed
    ∷ word_bytes be 4 m.engine_torque
    ∷ word_bytes false 1 m.break_flag
    ∷ word_bytes be 2 m.break_pos
    ∷ word_bytes be 2 m.break_pressure
    ∷ word_bytes be 2 m.fuel_consume
    ∷ word_bytes false 1 m.drive_mode
    ∷ word_bytes be 4 m.dest_location.longitude
    ∷ word_bytes be 4 m.dest_location.latitude
    ∷ word_bytes false 1 m.pass_pos_num
    ∷ positions_bytes be m.pass_pos
    ∷ [])

unfoldable pub encode : Veh2CloudState → Bool → List ℕ
unfolding body
encode m be = Codec.encode m.header be ++ body be m

abbrev pub PointIsValid : Position2D → Type 0
PointIsValid pos = (pos.longitude < 2 ^ 32) × (pos.latitude < 2 ^ 32)

-- The fields fit their C types, and `pass_pos_num` counts the points.
pub record IsValid (m : Veh2CloudState) : Type 0 where
  pub header_valid : Codec.IsValid m.header
  pub vehicle_id_size : Prelude.length m.vehicle_id ≡ 8
  pub message_id_size : Prelude.length m.message_id ≡ 8
  pub gnss_timestamp_range : m.gnss_timestamp < 2 ^ 64
  pub gnss_velocity_range : m.gnss_velocity < 2 ^ 16
  pub position_longitude_range : m.position.longitude < 2 ^ 32
  pub position_latitude_range : m.position.latitude < 2 ^ 32
  pub position_elevation_range : m.position.elevation < 2 ^ 32
  pub heading_range : m.heading < 2 ^ 32
  pub gear_range : m.gear < 256
  pub steering_angle_range : m.steering_angle < 2 ^ 32
  pub velocity_range : m.velocity < 2 ^ 16
  pub acc_lon_range : m.acc_lon < 2 ^ 16
  pub acc_lat_range : m.acc_lat < 2 ^ 16
  pub acc_ver_range : m.acc_ver < 2 ^ 16
  pub yaw_rate_range : m.yaw_rate < 2 ^ 16
  pub accel_pos_range : m.accel_pos < 2 ^ 16
  pub engine_speed_range : m.engine_speed < 2 ^ 16
  pub engine_torque_range : m.engine_torque < 2 ^ 32
  pub break_flag_range : m.break_flag < 256
  pub break_pos_range : m.break_pos < 2 ^ 16
  pub break_pressure_range : m.break_pressure < 2 ^ 16
  pub fuel_consume_range : m.fuel_consume < 2 ^ 16
  pub drive_mode_range : m.drive_mode < 256
  pub dest_location_longitude_range : m.dest_location.longitude < 2 ^ 32
  pub dest_location_latitude_range : m.dest_location.latitude < 2 ^ 32
  pub pass_pos_size : m.pass_pos_num ≡ Prelude.length m.pass_pos
  pub pass_pos_few : m.pass_pos_num < 256
  pub pass_pos_range : All PointIsValid m.pass_pos

pub length-ordered : (be : Bool) (v : List ℕ) → Prelude.length (ordered be v) ≡ Prelude.length v
length-ordered true v = length-reverse v
length-ordered false v = refl

pub put_positions-Writes :
    (be : Bool) (pass_pos : List Position2D)
    → Writes (put_positions be (Prelude.length pass_pos) pass_pos) (positions_bytes be pass_pos)
unfolding put_positions positions_bytes
put_positions-Writes be [] = skip-Writes
put_positions-Writes be (pos ∷ pass_pos) =
    seq-Writes (put_word-Writes be 4 pos.longitude)
      (seq-Writes (put_word-Writes be 4 pos.latitude) (put_positions-Writes be pass_pos))

pub put_positions_at-Writes :
    (be : Bool) (n : ℕ) (pass_pos : List Position2D)
    → n ≡ Prelude.length pass_pos
    → Writes (put_positions be n pass_pos) (positions_bytes be pass_pos)
put_positions_at-Writes be n pass_pos e = rw e (put_positions-Writes be pass_pos)

pub put_fields-Writes :
    (be : Bool) (m : Veh2CloudState) → IsValid m → Writes (put_fields be m) (body be m)
unfolding put_fields body
put_fields-Writes be m v = seq-Writes (put_eight-Writes m.vehicle_id v.vehicle_id_size) (
    seq-Writes
      (put_eight-Writes (ordered be m.message_id)
        (length-ordered be m.message_id ∙ v.message_id_size))
      (seq-Writes (put_word-Writes be 8 m.gnss_timestamp) (
        seq-Writes (put_word-Writes be 2 m.gnss_velocity) (
          seq-Writes (put_word-Writes be 4 m.position.longitude) (
            seq-Writes (put_word-Writes be 4 m.position.latitude) (
              seq-Writes (put_word-Writes be 4 m.position.elevation) (
                seq-Writes (put_word-Writes be 4 m.heading) (
                  seq-Writes (put_byte-Writes m.gear) (
                    seq-Writes (put_word-Writes be 4 m.steering_angle) (
                      seq-Writes (put_word-Writes be 2 m.velocity) (
                        seq-Writes (put_word-Writes be 2 m.acc_lon) (
                          seq-Writes (put_word-Writes be 2 m.acc_lat) (
                            seq-Writes (put_word-Writes be 2 m.acc_ver) (
                              seq-Writes (put_word-Writes be 2 m.yaw_rate) (
                                seq-Writes (put_word-Writes be 2 m.accel_pos) (
                                  seq-Writes (put_word-Writes be 2 m.engine_speed) (
                                    seq-Writes (put_word-Writes be 4 m.engine_torque) (
                                      seq-Writes (put_byte-Writes m.break_flag) (
                                        seq-Writes (put_word-Writes be 2 m.break_pos) (
                                          seq-Writes (put_word-Writes be 2 m.break_pressure) (
                                            seq-Writes (put_word-Writes be 2 m.fuel_consume) (
                                              seq-Writes (put_byte-Writes m.drive_mode) (
                                                seq-Writes
                                                  (put_word-Writes be 4 m.dest_location.longitude)
                                                  (seq-Writes
                                                    (put_word-Writes be 4 m.dest_location.latitude)
                                                    (seq-Writes (put_byte-Writes m.pass_pos_num) (
                                                      put_positions_at-Writes be m.pass_pos_num
                                                        m.pass_pos
                                                        v.pass_pos_size))))))))))))))))))))))))))

pub length-positions_bytes :
    (be : Bool) (pass_pos : List Position2D)
    → Prelude.length (positions_bytes be pass_pos) ≡ 8 * Prelude.length pass_pos
unfolding positions_bytes
length-positions_bytes be [] = omega arith
length-positions_bytes be (pos ∷ pass_pos) =
    simp (length-append, length-word_bytes, length-positions_bytes be pass_pos) (omega arith)

pub length-body :
    (be : Bool) (m : Veh2CloudState)
    → IsValid m
    → Prelude.length (body be m) ≡ 82 + 8 * Prelude.length m.pass_pos
unfolding body
length-body be m v =
    simp
      (
        length-append, length-word_bytes, v.vehicle_id_size, length-ordered, v.message_id_size,
        length-positions_bytes,
      )
      (omega arith)

-- 98 bytes, and eight for each point.
pub length-encode :
    (m : Veh2CloudState) (be : Bool)
    → IsValid m
    → Prelude.length (encode m be) ≡ 98 + 8 * Prelude.length m.pass_pos
unfolding encode
length-encode m be v = omega (
  arith,
  length-append (Codec.encode m.header be) (body be m),
  Codec.length-encode m.header be,
  length-body be m v,
)

pub to_bytes_lem :
    (m : Veh2CloudState) (buf : List ℕ) (size : ℕ) (be : Bool)
    → length m ≤ size
    → size < 2 ^ 64
    → to_bytes m (some buf) size be
      ≡ keep ((Header.put_fields m.header be >> put_fields be m) buf 0)
unfolding to_bytes
to_bytes_lem m buf size be le lt = rw (Codec.to_bytes_lem m.header buf size be (omega arith)) (
    put_behind-Writes (put_fields be m) buf size _ (Codec.put_fields-Writes m.header be)
      (rw Codec.length-encode (omega arith)) lt)

pub fields-Writes :
    (m : Veh2CloudState) (be : Bool)
    → IsValid m
    → Writes (Header.put_fields m.header be >> put_fields be m) (encode m be)
unfolding encode
fields-Writes m be v = seq-Writes (Codec.put_fields-Writes m.header be) (put_fields-Writes be m v)

-- With a size of at least `length()` and below 2^64, `to_bytes` of a valid Veh2CloudState writes
-- its wire format at the start of the buffer and returns how many bytes that is, if they fit the
-- buffer, and writes outside the buffer if they do not.
pub to_bytes-encode_state :
    (m : Veh2CloudState) (buf : List ℕ) (size : ℕ) (be : Bool)
    → IsValid m
    → length m ≤ size
    → size < 2 ^ 64
    → to_bytes m (some buf) size be ≡ (
        if leb (Prelude.length (encode m be)) (Prelude.length buf)
        then ok (some (splice 0 (encode m be) buf), Prelude.length (encode m be))
        else fault)
to_bytes-encode_state m buf size be v le lt =
    to_bytes_lem m buf size be le lt ∙ keep-Writes buf (fields-Writes m be v)
