-- ===== src/Tests/Handshake.antt =====
-- Headers and VEH2CLOUD_INH messages for the examples, and that they are valid.
use csae.Prelude.{ℕ, refl, List, [], ◌∷◌, arith}
use csae.Message.Header.{
  MessageHeader, heartbeat, veh2cloud_inh, cloud2veh_inh_res, veh2cloud_state, ctrl_priority_7,
}
use csae.Message.Header.Codec as HeaderCodec
use csae.Message.Inh.{Veh2CloudInh}
use csae.Message.Inh.Codec as InhCodec
use csae.Message.InhRes.{Cloud2VehInhRes}
use csae.Message.InhRes.Codec as InhResCodec

abbrev pub eight : List ℕ
eight = 0x41 ∷ 0x42 ∷ 0x43 ∷ 0x31 ∷ 0x32 ∷ 0x33 ∷ 0x34 ∷ 0x35 ∷ []

abbrev pub version_text : List ℕ
version_text = 0x31 ∷ 0x2e ∷ 0x30 ∷ []

abbrev pub other_text : List ℕ
other_text = 0x32 ∷ 0x2e ∷ 0x31 ∷ []

abbrev pub long_text : List ℕ
long_text = 0x32 ∷ 0x2e ∷ 0x31 ∷ 0x2e ∷ 0x37 ∷ []

abbrev pub heartbeat_header : MessageHeader
heartbeat_header = record {
  id = 0xf2;
  data_len = 0;
  data_type = heartbeat;
  version = 1;
  timestamp = 1612137600000;
  ctrl = ctrl_priority_7;
}

pub heartbeat_header-IsValid : HeaderCodec.IsValid heartbeat_header
heartbeat_header-IsValid = record {
  id_range = omega arith;
  data_len_range = omega arith;
  data_type_range = omega arith;
  version_range = omega arith;
  timestamp_range = omega arith;
  ctrl_range = omega arith;
}

abbrev pub inh_header : MessageHeader
inh_header = record {
  id = 0xf2;
  data_len = 27;
  data_type = veh2cloud_inh;
  version = 1;
  timestamp = 1612137600000;
  ctrl = ctrl_priority_7;
}

pub inh_header-IsValid : HeaderCodec.IsValid inh_header
inh_header-IsValid = record {
  id_range = omega arith;
  data_len_range = omega arith;
  data_type_range = omega arith;
  version_range = omega arith;
  timestamp_range = omega arith;
  ctrl_range = omega arith;
}

abbrev pub long_inh_header : MessageHeader
long_inh_header = record {
  id = 0xf2;
  data_len = 29;
  data_type = veh2cloud_inh;
  version = 1;
  timestamp = 1612137600000;
  ctrl = ctrl_priority_7;
}

pub long_inh_header-IsValid : HeaderCodec.IsValid long_inh_header
long_inh_header-IsValid = record {
  id_range = omega arith;
  data_len_range = omega arith;
  data_type_range = omega arith;
  version_range = omega arith;
  timestamp_range = omega arith;
  ctrl_range = omega arith;
}

abbrev pub inh_res_header : MessageHeader
inh_res_header = record {
  id = 0xf2;
  data_len = 9;
  data_type = cloud2veh_inh_res;
  version = 1;
  timestamp = 1612137600000;
  ctrl = ctrl_priority_7;
}

pub inh_res_header-IsValid : HeaderCodec.IsValid inh_res_header
inh_res_header-IsValid = record {
  id_range = omega arith;
  data_len_range = omega arith;
  data_type_range = omega arith;
  version_range = omega arith;
  timestamp_range = omega arith;
  ctrl_range = omega arith;
}

abbrev pub state_header : MessageHeader
state_header = record {
  id = 0xf2;
  data_len = 82;
  data_type = veh2cloud_state;
  version = 1;
  timestamp = 1612137600000;
  ctrl = ctrl_priority_7;
}

pub state_header-IsValid : HeaderCodec.IsValid state_header
state_header-IsValid = record {
  id_range = omega arith;
  data_len_range = omega arith;
  data_type_range = omega arith;
  version_range = omega arith;
  timestamp_range = omega arith;
  ctrl_range = omega arith;
}

abbrev pub route_header : MessageHeader
route_header = record {
  id = 0xf2;
  data_len = 84;
  data_type = veh2cloud_state;
  version = 1;
  timestamp = 1612137600000;
  ctrl = ctrl_priority_7;
}

pub route_header-IsValid : HeaderCodec.IsValid route_header
route_header-IsValid = record {
  id_range = omega arith;
  data_len_range = omega arith;
  data_type_range = omega arith;
  version_range = omega arith;
  timestamp_range = omega arith;
  ctrl_range = omega arith;
}

abbrev pub state2_header : MessageHeader
state2_header = record {
  id = 0xf2;
  data_len = 128;
  data_type = veh2cloud_state;
  version = 2;
  timestamp = 1612137600000;
  ctrl = ctrl_priority_7;
}

pub state2_header-IsValid : HeaderCodec.IsValid state2_header
state2_header-IsValid = record {
  id_range = omega arith;
  data_len_range = omega arith;
  data_type_range = omega arith;
  version_range = omega arith;
  timestamp_range = omega arith;
  ctrl_range = omega arith;
}

abbrev pub wheels_header : MessageHeader
wheels_header = record {
  id = 0xf2;
  data_len = 132;
  data_type = veh2cloud_state;
  version = 2;
  timestamp = 1612137600000;
  ctrl = ctrl_priority_7;
}

pub wheels_header-IsValid : HeaderCodec.IsValid wheels_header
wheels_header-IsValid = record {
  id_range = omega arith;
  data_len_range = omega arith;
  data_type_range = omega arith;
  version_range = omega arith;
  timestamp_range = omega arith;
  ctrl_range = omega arith;
}

abbrev pub inh_sample : Veh2CloudInh
inh_sample = record {
  header = inh_header;
  vehicle_id = eight;
  sw_ver_len = 3;
  sw_ver = version_text;
  hw_ver_len = 3;
  hw_ver = other_text;
  ad_ver_len = 3;
  ad_ver = version_text;
  com_type = 1;
  pos_confidence = 2;
  time_sync = 1;
  gnss_type = 3;
  user_data_len = 2;
  user_data = 0x68 ∷ 0x69 ∷ [];
}

pub inh_sample-IsValid : InhCodec.IsValid inh_sample
inh_sample-IsValid = record {
  header_valid = inh_header-IsValid;
  vehicle_id_size = refl;
  sw_ver_size = refl;
  sw_ver_short = omega arith;
  hw_ver_size = refl;
  hw_ver_short = omega arith;
  ad_ver_size = refl;
  ad_ver_short = omega arith;
  com_type_range = omega arith;
  pos_confidence_range = omega arith;
  time_sync_range = omega arith;
  gnss_type_range = omega arith;
  user_data_size = refl;
  user_data_short = omega arith;
}

abbrev pub long_inh : Veh2CloudInh
long_inh = record {
  header = long_inh_header;
  vehicle_id = eight;
  sw_ver_len = 3;
  sw_ver = version_text;
  hw_ver_len = 5;
  hw_ver = long_text;
  ad_ver_len = 3;
  ad_ver = version_text;
  com_type = 1;
  pos_confidence = 2;
  time_sync = 1;
  gnss_type = 3;
  user_data_len = 2;
  user_data = 0x68 ∷ 0x69 ∷ [];
}

pub long_inh-IsValid : InhCodec.IsValid long_inh
long_inh-IsValid = record {
  header_valid = long_inh_header-IsValid;
  vehicle_id_size = refl;
  sw_ver_size = refl;
  sw_ver_short = omega arith;
  hw_ver_size = refl;
  hw_ver_short = omega arith;
  ad_ver_size = refl;
  ad_ver_short = omega arith;
  com_type_range = omega arith;
  pos_confidence_range = omega arith;
  time_sync_range = omega arith;
  gnss_type_range = omega arith;
  user_data_size = refl;
  user_data_short = omega arith;
}

abbrev pub inh_res_sample : Cloud2VehInhRes
inh_res_sample = record { header = inh_res_header; vehicle_id = eight; res = 1 }

pub inh_res_sample-IsValid : InhResCodec.IsValid inh_res_sample
inh_res_sample-IsValid = record {
  header_valid = inh_res_header-IsValid;
  data_len_exact = refl;
  vehicle_id_size = refl;
  res_range = omega arith;
}
