-- ===== src/Tests/Prints.antt =====
-- Printed messages.
use csae.Prelude.{◌+◌, ◌≡◌, refl, inr, true, List, [], ◌++◌, arith, length, replicate, ok, fault}
use csae.Message.Print.{utf8, decimal, hex}
use csae.Message.Print.Laws.{Row, render, Table}
use csae.Message.Header.Print as HeaderPrint
use csae.Message.Inh.{Veh2CloudInh}
use csae.Message.Inh.Codec as InhCodec
use csae.Message.Inh.Print
use csae.Message.Inh.Print.Table.{print-long_text}
use csae.Message.State.Codec as StateCodec
use csae.Message.State.Print.Table.{swapped}
use csae.Message.State2.Codec as State2Codec
use csae.Message.State2.Print as State2Print
use csae.Message.State2.Print.Table.{print-encode_state2}
use csae.Tests.Handshake.{heartbeat_header, inh_header-IsValid, inh_sample}
use csae.Tests.States2.{wheels_sample, wheels_sample-IsValid}

-- 128 bytes of user data.
abbrev talkative : Veh2CloudInh
talkative = record inh_sample { user_data_len = 128; user_data = replicate 128 0x41 }

talkative-IsValid : InhCodec.IsValid talkative
talkative-IsValid = record {
  header_valid = inh_header-IsValid;
  vehicle_id_size = refl;
  sw_ver_size = refl;
  sw_ver_short = omega arith;
  hw_ver_size = refl;
  hw_ver_short = omega arith;
  ad_ver_size = refl;
  ad_ver_short = omega arith;
  com_type_range = omega arith;
  pos_confidence_range = omega arith;
  time_sync_range = omega arith;
  gnss_type_range = omega arith;
  user_data_size = refl;
  user_data_short = omega arith;
}

print-long_text_example : Print.print [] talkative ≡ fault
print-long_text_example =
    print-long_text [] talkative talkative-IsValid
      (record { user_data_short = omega arith; long = inr (inr (inr (omega arith))) })

print-encode_state2_example :
    (base_rows : List Row) × (rows : List Row) × (State2Print.print [] wheels_sample
      ≡ ok ([] ++ render (base_rows ++ rows)))
    × Table 0 base_rows (StateCodec.encode (swapped wheels_sample.state) true)
    × Table (98 + length wheels_sample.state.pass_pos) rows (State2Codec.body true wheels_sample)
print-encode_state2_example =
    print-encode_state2 [] wheels_sample wheels_sample-IsValid (omega arith) (omega arith)

-- The six lines of a header.
heartbeat_printed :
    HeaderPrint.print [] heartbeat_header
    ≡ ok (
        utf8 "0   [F2] 标识位: 242\n"
        ++ (utf8 "1   [00000000] 数据段长度: 0\n"
            ++ (utf8 "5   [0C] 数据类别: 12\n"
                ++ (utf8 "6   [01] 版本号: 1\n"
                    ++ (utf8 "7   [000001775AE39400] 时间戳: 1612137600000\n"
                        ++ utf8 "15  [1C] 控制内容: 28\n")))))
unfolding HeaderPrint.print decimal hex
heartbeat_printed = refl
