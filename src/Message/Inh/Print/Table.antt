-- ===== src/Message/Inh/Print/Table.antt =====
-- What the print of VEH2CLOUD_INH shows, and when it leaves its arrays.
use csae.Prelude.{ℕ, ◌≤◌, ◌<◌, ◌≡◌, sym, ◌⊎◌, true, List, ◌++◌, arith, fault}
use native.Mathlib.Decide.{dec_lt}
use csae.Message.Print.{utf8}
use csae.Message.Print.Laws.{
  Prints, Faults, seq-Prints, first-Faults, then-Faults, behind-Prints, behind-Faults, IsTable,
}
use csae.Message.Print.Lines.{u8-Prints, put_vehicle_id-Prints, put_text-Prints, put_text-Faults}
use csae.Message.Header.{sizeof_header}
use csae.Message.Header.Codec
use csae.Message.Header.Print.Table.{print-encode_header}
use csae.Message.Inh.{Veh2CloudInh}
use csae.Message.Inh.Codec.{IsValid}
use csae.Message.Inh.Format.{fields_bytes}
use csae.Message.Inh.Print.{put_rows, print}

put_rows-Prints :
    (m : Veh2CloudInh)
    → IsValid m
    → m.sw_ver_len < 128
    → m.hw_ver_len < 128
    → m.ad_ver_len < 128
    → m.user_data_len < 128
    → Prints (put_rows m) (fields_bytes m)
unfolding put_rows fields_bytes
put_rows-Prints m v sw hw ad user =
    seq-Prints (put_vehicle_id-Prints m.vehicle_id v.vehicle_id_size) (
      seq-Prints
        (u8-Prints 2 m.sw_ver_len (utf8 "车载终端设备软件版本号长度") (omega arith) (omega arith) (omega arith))
        (seq-Prints
          (put_text-Prints (utf8 "车辆软件版本") m.sw_ver_len m.sw_ver (omega arith) v.sw_ver_size
            (omega arith))
          (seq-Prints
            (u8-Prints 2 m.hw_ver_len (utf8 "自动驾驶系统硬件版本号长度") (omega arith) (omega arith)
              (omega arith))
            (seq-Prints
              (put_text-Prints (utf8 "自动驾驶系统硬件版本") m.hw_ver_len m.hw_ver (omega arith) v.hw_ver_size
                (omega arith))
              (seq-Prints
                (u8-Prints 2 m.ad_ver_len (utf8 "自动驾驶系统软件版本号长度") (omega arith) (omega arith)
                  (omega arith))
                (seq-Prints
                  (put_text-Prints (utf8 "自动驾驶系统软件版本号") m.ad_ver_len m.ad_ver (omega arith)
                    v.ad_ver_size (omega arith))
                  (seq-Prints
                    (u8-Prints 2 m.com_type (utf8 "无线通讯类型") (omega arith) (omega arith)
                      v.com_type_range)
                    (seq-Prints
                      (u8-Prints 2 m.pos_confidence (utf8 "定位精度") (omega arith) (omega arith)
                        v.pos_confidence_range)
                      (seq-Prints
                        (u8-Prints 2 m.time_sync (utf8 "时间同步方式") (omega arith) (omega arith)
                          v.time_sync_range)
                        (seq-Prints
                          (u8-Prints 2 m.gnss_type (utf8 "坐标系类型") (omega arith) (omega arith)
                            v.gnss_type_range)
                          (seq-Prints
                            (u8-Prints 2 m.user_data_len (utf8 "自定义字段长度") (omega arith)
                              (omega arith) (omega arith))
                            (put_text-Prints (utf8 "自定义字段内容") m.user_data_len m.user_data
                              (omega arith) v.user_data_size (omega arith)))))))))))))

-- The four texts have less than 255 bytes, and one of them has at least 128.
pub record HasLongText (m : Veh2CloudInh) : Type 0 where
  pub user_data_short : m.user_data_len < 255
  pub long :
      (128 ≤ m.sw_ver_len)
      ⊎ ((128 ≤ m.hw_ver_len) ⊎ ((128 ≤ m.ad_ver_len) ⊎ (128 ≤ m.user_data_len)))

put_rows-Faults : (m : Veh2CloudInh) → IsValid m → HasLongText m → Faults (put_rows m)
unfolding put_rows
put_rows-Faults m v t = then-Faults (put_vehicle_id-Prints m.vehicle_id v.vehicle_id_size) (
    then-Faults
      (u8-Prints 2 m.sw_ver_len (utf8 "车载终端设备软件版本号长度") (omega arith) (omega arith) (omega arith))
      (elim (dec_lt m.sw_ver_len 128) [
        | yes sw_ver_fits ↦
            then-Faults
              (put_text-Prints (utf8 "车辆软件版本") m.sw_ver_len m.sw_ver (omega arith) v.sw_ver_size
                (omega arith))
              (then-Faults
                (u8-Prints 2 m.hw_ver_len (utf8 "自动驾驶系统硬件版本号长度") (omega arith) (omega arith)
                  (omega arith))
                (elim (dec_lt m.hw_ver_len 128) [
                  | yes hw_ver_fits ↦
                      then-Faults
                        (put_text-Prints (utf8 "自动驾驶系统硬件版本") m.hw_ver_len m.hw_ver (omega arith)
                          v.hw_ver_size (omega arith))
                        (then-Faults
                          (u8-Prints 2 m.ad_ver_len (utf8 "自动驾驶系统软件版本号长度") (omega arith)
                            (omega arith) (omega arith))
                          (elim (dec_lt m.ad_ver_len 128) [
                            | yes ad_ver_fits ↦
                                then-Faults
                                  (put_text-Prints (utf8 "自动驾驶系统软件版本号") m.ad_ver_len m.ad_ver
                                    (omega arith) v.ad_ver_size (omega arith))
                                  (then-Faults
                                    (u8-Prints 2 m.com_type (utf8 "无线通讯类型") (omega arith)
                                      (omega arith) v.com_type_range)
                                    (then-Faults
                                      (u8-Prints 2 m.pos_confidence (utf8 "定位精度") (omega arith)
                                        (omega arith) v.pos_confidence_range)
                                      (then-Faults
                                        (u8-Prints 2 m.time_sync (utf8 "时间同步方式") (omega arith)
                                          (omega arith) v.time_sync_range)
                                        (then-Faults
                                          (u8-Prints 2 m.gnss_type (utf8 "坐标系类型") (omega arith)
                                            (omega arith) v.gnss_type_range)
                                          (then-Faults
                                            (u8-Prints 2 m.user_data_len (utf8 "自定义字段长度")
                                              (omega arith) (omega arith) (omega arith))
                                            (put_text-Faults (utf8 "自定义字段内容") m.user_data_len
                                              m.user_data v.user_data_size (omega arith)
                                              (omega arith)))))))
                            | no ad_ver_long ↦ first-Faults _ (
                                put_text-Faults (utf8 "自动驾驶系统软件版本号") m.ad_ver_len m.ad_ver
                                  v.ad_ver_size (omega arith) (omega arith))
                          ]))
                  | no hw_ver_long ↦ first-Faults _ (
                      put_text-Faults (utf8 "自动驾驶系统硬件版本") m.hw_ver_len m.hw_ver v.hw_ver_size
                        (omega arith) (omega arith))
                ]))
        | no sw_ver_long ↦ first-Faults _ (
            put_text-Faults (utf8 "车辆软件版本") m.sw_ver_len m.sw_ver v.sw_ver_size (omega arith)
              (omega arith))
      ]))

-- Whatever the stream holds, the print of a valid Veh2CloudInh whose four texts have less than 128
-- bytes puts a table behind it, of the header's big-endian bytes and the fields behind them, each
-- version behind its own length.
pub print-fields_bytes :
    (os : List ℕ) (m : Veh2CloudInh)
    → IsValid m
    → m.sw_ver_len < 128
    → m.hw_ver_len < 128
    → m.ad_ver_len < 128
    → m.user_data_len < 128
    → IsTable (print os m) os (Codec.encode m.header true ++ fields_bytes m)
unfolding print
print-fields_bytes os m v sw hw ad user =
    behind-Prints os (print-encode_header os m.header v.header_valid)
      (sym (Codec.length-encode m.header true)) (put_rows-Prints m v sw hw ad user)

-- Whatever the stream holds, the print of a valid Veh2CloudInh one of whose four texts has 128
-- bytes or more, and none 255 or more, writes outside its array.
pub print-long_text :
    (os : List ℕ) (m : Veh2CloudInh) → IsValid m → HasLongText m → print os m ≡ fault
unfolding print
print-long_text os m v t =
    behind-Faults os sizeof_header (print-encode_header os m.header v.header_valid)
      (put_rows-Faults m v t)
