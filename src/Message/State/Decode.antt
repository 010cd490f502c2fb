-- ===== src/Message/State/Decode.antt =====
-- Reading VEH2CLOUD_STATE back.
use csae.Prelude.{
  ℕ, zero, suc, ◌+◌, ◌*◌, ◌^◌, ◌≤◌, ◌<◌, ◌≡◌, refl, ◌∙◌, Bool, true, false, some, List, [], ◌∷◌,
  ◌++◌, append_assoc, append-nil, arith, length-append, length-reverse, All, Run, ok,
}
use csae.Prelude
use mathlib.Core.List.{reverse-reverse}
use csae.Memory.Read.{◌>>=◌}
use csae.Memory.Read.Laws.{
  Reads, bind-Reads, map-Reads, done-Reads, get_byte-Reads, get_bytes-Reads, get_u16-Reads,
  get_u32-Reads, get_u64-Reads,
}
use csae.Memory.Read.Safe.{
  Safe, Any, Safe-le, bind-Safe, done-Safe, get_byte-Safe, get_bytes-Safe, get_word-Safe,
}
use csae.Memory.Buffer.Laws.{get_behind-Reads}
use csae.Message.Header
use csae.Message.Header.{sizeof_header}
use csae.Message.Header.Codec
use csae.Message.State.{
  Position2D, Veh2CloudState, ordered, default_state, get_positions, get_fields, from_bytes,
}
use csae.Message.State.Codec as StateCodec
use csae.Message.State.Codec.{positions_bytes, body, encode, PointIsValid, IsValid}

ordered-ordered : (be : Bool) (v : List ℕ) → ordered be (ordered be v) ≡ v
ordered-ordered true v = reverse-reverse v
ordered-ordered false v = refl

get_positions-Reads :
    (be : Bool) (pass_pos before : List Position2D)
    → All PointIsValid pass_pos
    → Reads
        (get_positions be (Prelude.length pass_pos) before)
        (positions_bytes be pass_pos)
        (before ++ pass_pos)
unfolding get_positions positions_bytes
get_positions-Reads be [] before h = rw append-nil (done-Reads before)
get_positions-Reads be (pos ∷ pass_pos) before h =
    bind-Reads _ (get_u32-Reads be pos.longitude h.0.0) (
      bind-Reads _ (get_u32-Reads be pos.latitude h.0.1) (
        rw (append_assoc before (pos ∷ []) pass_pos) at
          (get_positions-Reads be pass_pos (before ++ (pos ∷ [])) h.1)))

get_positions_at-Reads :
    (be : Bool) (n : ℕ) (pass_pos : List Position2D)
    → n ≡ Prelude.length pass_pos
    → All PointIsValid pass_pos
    → Reads (get_positions be n []) (positions_bytes be pass_pos) pass_pos
get_positions_at-Reads be n pass_pos e h = rw e (get_positions-Reads be pass_pos [] h)

-- `message_id` is turned round by the writer and again by the reader.
get_fields_turned-Reads :
    (be : Bool) (m raw : Veh2CloudState)
    → IsValid m
    → Reads
        (get_fields be (record (default_state raw) { header = m.header }))
        (body be m)
        (record m { message_id = ordered be (ordered be m.message_id) })
unfolding get_fields default_state body
get_fields_turned-Reads be m raw v =
    bind-Reads _ (get_bytes-Reads 8 m.vehicle_id v.vehicle_id_size) (
      bind-Reads _
        (get_bytes-Reads 8 (ordered be m.message_id)
          (StateCodec.length-ordered be m.message_id ∙ v.message_id_size))
        (bind-Reads _ (get_u64-Reads be m.gnss_timestamp v.gnss_timestamp_range) (
          bind-Reads _ (get_u16-Reads be m.gnss_velocity v.gnss_velocity_range) (
            bind-Reads _ (get_u32-Reads be m.position.longitude v.position_longitude_range) (
              bind-Reads _ (get_u32-Reads be m.position.latitude v.position_latitude_range) (
                bind-Reads _ (get_u32-Reads be m.position.elevation v.position_elevation_range) (
                  bind-Reads _ (get_u32-Reads be m.heading v.heading_range) (
                    bind-Reads _ (get_byte-Reads m.gear v.gear_range) (
                      bind-Reads _ (get_u32-Reads be m.steering_angle v.steering_angle_range) (
                        bind-Reads _ (get_u16-Reads be m.velocity v.velocity_range) (
                          bind-Reads _ (get_u16-Reads be m.acc_lon v.acc_lon_range) (
                            bind-Reads _ (get_u16-Reads be m.acc_lat v.acc_lat_range) (
                              bind-Reads _ (get_u16-Reads be m.acc_ver v.acc_ver_range) (
                                bind-Reads _ (get_u16-Reads be m.yaw_rate v.yaw_rate_range) (
                                  bind-Reads _ (get_u16-Reads be m.accel_pos v.accel_pos_range) (
                                    bind-Reads _
                                      (get_u16-Reads be m.engine_speed v.engine_speed_range)
                                      (bind-Reads _
                                        (get_u32-Reads be m.engine_torque v.engine_torque_range)
                                        (bind-Reads _
                                          (get_byte-Reads m.break_flag v.break_flag_range)
                                          (bind-Reads _
                                            (get_u16-Reads be m.break_pos v.break_pos_range)
                                            (bind-Reads _
                                              (get_u16-Reads be m.break_pressure
                                                v.break_pressure_range)
                                              (bind-Reads _
                                                (get_u16-Reads be m.fuel_consume
                                                  v.fuel_consume_range)
                                                (bind-Reads _
                                                  (get_byte-Reads m.drive_mode v.drive_mode_range)
                                                  (bind-Reads _
                                                    (get_u32-Reads be m.dest_location.longitude
                                                      v.dest_location_longitude_range)
                                                    (bind-Reads _
                                                      (get_u32-Reads be m.dest_location.latitude
                                                        v.dest_location_latitude_range)
                                                      (bind-Reads _
                                                        (get_byte-Reads m.pass_pos_num
                                                          v.pass_pos_few)
                                                        (map-Reads _ (
                                                          get_positions_at-Reads be m.pass_pos_num
                                                            m.pass_pos v.pass_pos_size
                                                            v.pass_pos_range)))))))))))))))))))))))))))

pub get_fields-Reads :
    (be : Bool) (m raw : Veh2CloudState)
    → IsValid m
    → Reads (get_fields be (record (default_state raw) { header = m.header })) (body be m) m
get_fields-Reads be m raw v =
    rw (ordered-ordered be m.message_id) at (get_fields_turned-Reads be m raw v)

pub fields-Reads :
    (m raw : Veh2CloudState) (be : Bool)
    → IsValid m
    → Reads
        (Header.get_fields be >>= λ h. get_fields be (record (default_state raw) { header = h }))
        (encode m be)
        m
unfolding encode
fields-Reads m raw be v =
    bind-Reads _ (Codec.get_fields-Reads m.header be v.header_valid) (get_fields-Reads be m raw v)

-- With a size of at least 98 and below 2^64, the constructor over the wire format of a valid
-- Veh2CloudState in either byte order, with any number of points and any bytes behind, makes that
-- message and returns its length.
pub from_bytes-encode_state :
    (m raw : Veh2CloudState) (post : List ℕ) (size : ℕ) (be : Bool)
    → IsValid m
    → 98 ≤ size
    → size < 2 ^ 64
    → from_bytes (default_state raw) (some (encode m be ++ post)) size be
      ≡ ok (m, Prelude.length (encode m be))
unfolding from_bytes encode default_state
from_bytes-encode_state m raw post size be v le lt =
    rw (Codec.from_bytes_lem _ (encode m be ++ post) size be (omega arith)) (
      get_behind-Reads (λ h. get_fields be (record (default_state raw) { header = h }))
        (λ h. record (default_state raw) { header = h }) _ post size
        (Codec.get_fields-Reads m.header be v.header_valid) (get_fields-Reads be m raw v)
        (rw Codec.length-encode (omega arith)) lt)

get_positions-Safe :
    (be : Bool) (n : ℕ) (before : List Position2D) → Safe (get_positions be n before) Any (8 * n)
unfolding get_positions
get_positions-Safe be zero before = Safe-le (8 * 0) (omega arith) (done-Safe before Any tt)
get_positions-Safe be (suc n) before = Safe-le (8 * suc n) (omega arith) (
    bind-Safe (get_word-Safe be 4 (omega arith)) λ lon _.
      bind-Safe (get_word-Safe be 4 (omega arith)) λ lat _.
        get_positions-Safe be n (before ++ (record { longitude = lon; latitude = lat } ∷ [])))

-- The body reads at most 82 bytes and 255 points.
pub get_fields-Safe : (be : Bool) (m : Veh2CloudState) → Safe (get_fields be m) Any (82 + 8 * 255)
unfolding get_fields
get_fields-Safe be m = Safe-le (82 + 8 * 255) (omega arith) (
    bind-Safe (get_bytes-Safe 8 (omega arith)) λ _ _.
      bind-Safe (get_bytes-Safe 8 (omega arith)) λ _ _.
        bind-Safe (get_word-Safe be 8 (omega arith)) λ _ _.
          bind-Safe (get_word-Safe be 2 (omega arith)) λ _ _.
            bind-Safe (get_word-Safe be 4 (omega arith)) λ _ _.
              bind-Safe (get_word-Safe be 4 (omega arith)) λ _ _.
                bind-Safe (get_word-Safe be 4 (omega arith)) λ _ _.
                  bind-Safe (get_word-Safe be 4 (omega arith)) λ _ _. bind-Safe get_byte-Safe λ _ _.
                    bind-Safe (get_word-Safe be 4 (omega arith)) λ _ _.
                      bind-Safe (get_word-Safe be 2 (omega arith)) λ _ _.
                        bind-Safe (get_word-Safe be 2 (omega arith)) λ _ _.
                          bind-Safe (get_word-Safe be 2 (omega arith)) λ _ _.
                            bind-Safe (get_word-Safe be 2 (omega arith)) λ _ _.
                              bind-Safe (get_word-Safe be 2 (omega arith)) λ _ _.
                                bind-Safe (get_word-Safe be 2 (omega arith)) λ _ _.
                                  bind-Safe (get_word-Safe be 2 (omega arith)) λ _ _.
                                    bind-Safe (get_word-Safe be 4 (omega arith)) λ _ _.
                                      bind-Safe get_byte-Safe λ _ _.
                                        bind-Safe (get_word-Safe be 2 (omega arith)) λ _ _.
                                          bind-Safe (get_word-Safe be 2 (omega arith)) λ _ _.
                                            bind-Safe (get_word-Safe be 2 (omega arith)) λ _ _.
                                              bind-Safe get_byte-Safe λ _ _.
                                                bind-Safe (get_word-Safe be 4 (omega arith)) λ _ _.
                                                  bind-Safe (get_word-Safe be 4 (omega arith))
                                                    λ _ _. bind-Safe get_byte-Safe λ n few.
                                                      bind-Safe
                                                        (Safe-le (8 * 255) (omega arith)
                                                          (get_positions-Safe be n m.pass_pos))
                                                        λ _ _. done-Safe _ Any tt)
