-- ===== src/Message/Inh/Print.antt =====
-- include/protocol/message/veh2cloud_inh.h: operator<< of VEH2CLOUD_INH.
pub mod Table
use csae.Prelude.{ℕ, List, Run, bind}
use csae.Message.Print.{utf8, Printer, ◌>>◌, start, finish, put_number, put_vehicle_id, put_text}
use csae.Message.Header
use csae.Message.Header.Print
use csae.Message.Inh.{Veh2CloudInh}

unfoldable pub put_rows : Veh2CloudInh → Printer
unfolding ◌>>◌ put_number put_vehicle_id put_text
put_rows m = do
  put_vehicle_id m.vehicle_id
  put_number 2 (utf8 "车载终端设备软件版本号长度") 1 m.sw_ver_len
  put_text (utf8 "车辆软件版本") m.sw_ver_len m.sw_ver
  put_number 2 (utf8 "自动驾驶系统硬件版本号长度") 1 m.hw_ver_len
  put_text (utf8 "自动驾驶系统硬件版本") m.hw_ver_len m.hw_ver
  put_number 2 (utf8 "自动驾驶系统软件版本号长度") 1 m.ad_ver_len
  put_text (utf8 "自动驾驶系统软件版本号") m.ad_ver_len m.ad_ver
  put_number 2 (utf8 "无线通讯类型") 1 m.com_type
  put_number 2 (utf8 "定位精度") 1 m.pos_confidence
  put_number 2 (utf8 "时间同步方式") 1 m.time_sync
  put_number 2 (utf8 "坐标系类型") 1 m.gnss_type
  put_number 2 (utf8 "自定义字段长度") 1 m.user_data_len
  put_text (utf8 "自定义字段内容") m.user_data_len m.user_data

unfoldable pub print : List ℕ → Veh2CloudInh → Run (List ℕ)
unfolding put_rows start Print.print
print os m =
    bind (Print.print os m.header) (λ os'. finish (put_rows m (start os' (Header.length m.header))))
