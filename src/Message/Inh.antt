-- ===== src/Message/Inh.antt =====
-- include/protocol/message/veh2cloud_inh.h, VEH2CLOUD_INH: a vehicle announces itself.
pub mod Codec
pub mod Format
pub mod Faults
pub mod Print
use csae.Prelude.{ℕ, ◌+◌, ◌-◌, ◌*◌, ◌%◌, ◌^◌, Bool, none, some, List, [], Run, ok, bind}
use csae.Prelude
use csae.Memory.Word.{sub_size}
use csae.Memory.Read.{Reader, ◌>>=◌, done, get_byte, get_bytes}
use csae.Memory.Write.{Writer, ◌>>◌, put_byte, put_copy}
use csae.Memory.Buffer.{Buffer, put_behind, get_behind}
use csae.Memory.Text.{
  strncpy, clip, eight_zeros, text_len, put_text, get_text, put_user_data, get_user_data,
}
use csae.Message.Header
use csae.Message.Header.{MessageHeader, sizeof_header, veh2cloud_inh, new_header, default_init}

-- `MessageHeader` is the base class.
pub record Veh2CloudInh : Type 0 where
  pub header : MessageHeader
  pub vehicle_id : List ℕ  -- char[8]
  pub sw_ver_len : ℕ  -- uint8_t
  pub sw_ver : List ℕ
  pub hw_ver_len : ℕ  -- uint8_t
  pub hw_ver : List ℕ
  pub ad_ver_len : ℕ  -- uint8_t
  pub ad_ver : List ℕ
  pub com_type : ℕ  -- uint8_t
  pub pos_confidence : ℕ  -- uint8_t
  pub time_sync : ℕ  -- uint8_t
  pub gnss_type : ℕ  -- uint8_t
  pub user_data_len : ℕ  -- uint8_t
  pub user_data : List ℕ

-- sizeof(std::string); every use of it cancels against `sizeof_inh`.
abbrev pub sizeof_string : ℕ
sizeof_string = 32

-- sizeof(Veh2CloudInh), under `#pragma pack(1)`.
abbrev pub sizeof_inh : ℕ
sizeof_inh =
    sizeof_header
    + 8
    + (1 + sizeof_string)
    + (1 + sizeof_string)
    + (1 + sizeof_string)
    + 4
    + (1 + sizeof_string)

-- The constructor over the fields. `data_len` is a uint32_t, the text lengths are uint8_t.
unfoldable pub new_inh :
    ℕ → ℕ → ℕ → List ℕ → List ℕ → List ℕ → List ℕ → ℕ → ℕ → ℕ → ℕ → List ℕ → Veh2CloudInh
unfolding strncpy new_header
new_inh version timestamp ctrl vehicle_id sw_ver hw_ver ad_ver com_type pos_confidence time_sync
      gnss_type user_data =
    let base = sizeof_inh - sizeof_header - 4 * sizeof_string in
    let data_len =
      (base + text_len sw_ver + text_len hw_ver + text_len ad_ver + text_len user_data) % 2 ^ 32 in
    record {
      header = new_header data_len veh2cloud_inh version timestamp ctrl;
      vehicle_id = strncpy eight_zeros vehicle_id (clip 8 (Prelude.length vehicle_id));
      sw_ver_len = text_len sw_ver;
      sw_ver = sw_ver;
      hw_ver_len = text_len hw_ver;
      hw_ver = hw_ver;
      ad_ver_len = text_len ad_ver;
      ad_ver = ad_ver;
      com_type = com_type;
      pos_confidence = pos_confidence;
      time_sync = time_sync;
      gnss_type = gnss_type;
      user_data_len = text_len user_data;
      user_data = user_data;
    }

-- What the constructor over a buffer starts from: the default initialisers, and whatever the
-- storage `raw` held in the fields that have none.
unfoldable pub default_inh : Veh2CloudInh → Veh2CloudInh
unfolding default_init
default_inh raw = record raw {
  header = default_init raw.header;
  vehicle_id = eight_zeros;
  sw_ver = [];
  hw_ver = [];
  ad_ver = [];
  user_data = [];
}

abbrev pub length : Veh2CloudInh → ℕ
length m =
    sizeof_inh
    - sizeof_string
    + Prelude.length m.sw_ver
    - sizeof_string
    + Prelude.length m.hw_ver
    - sizeof_string
    + Prelude.length m.ad_ver
    - sizeof_string
    + Prelude.length m.user_data

-- The body of `from_bytes`, from `vehicle_id` to `user_data`; `m` is the message before it.
unfoldable pub get_fields : Veh2CloudInh → Reader Veh2CloudInh
unfolding ◌>>=◌ done get_byte get_bytes get_text get_user_data
get_fields m = do
  vehicle_id ← get_bytes 8
  sw_ver_len ← get_byte
  sw_ver ← get_text sw_ver_len m.sw_ver
  hw_ver_len ← get_byte
  hw_ver ← get_text hw_ver_len m.hw_ver
  ad_ver_len ← get_byte
  ad_ver ← get_text ad_ver_len m.ad_ver
  com_type ← get_byte
  pos_confidence ← get_byte
  time_sync ← get_byte
  gnss_type ← get_byte
  user_data_len ← get_byte
  user_data ← get_user_data user_data_len m.user_data
  done (record {
    header = m.header;
    vehicle_id = vehicle_id;
    sw_ver_len = sw_ver_len;
    sw_ver = sw_ver;
    hw_ver_len = hw_ver_len;
    hw_ver = hw_ver;
    ad_ver_len = ad_ver_len;
    ad_ver = ad_ver;
    com_type = com_type;
    pos_confidence = pos_confidence;
    time_sync = time_sync;
    gnss_type = gnss_type;
    user_data_len = user_data_len;
    user_data = user_data;
  })

unfoldable pub from_bytes : Veh2CloudInh → Buffer → ℕ → Bool → Run (Veh2CloudInh × ℕ)
unfolding get_fields Header.from_bytes get_behind
from_bytes m none size be = ok (m, 0)
from_bytes m (some buf) size be = bind (Header.from_bytes m.header (some buf) size be) λ p.
    let m' = record m { header = p.0 } in
    let len = sub_size (length m') sizeof_header in
    get_behind m' (get_fields m') size len (some buf) p.1

-- The body of `to_bytes`, from `vehicle_id` to `user_data`.
unfoldable pub put_fields : Veh2CloudInh → Writer
unfolding put_byte put_copy put_text put_user_data
put_fields m = do
  put_copy m.vehicle_id 8
  put_byte m.sw_ver_len
  put_text m.sw_ver_len m.sw_ver
  put_byte m.sw_ver_len
  put_text m.hw_ver_len m.sw_ver
  put_byte m.ad_ver_len
  put_text m.ad_ver_len m.sw_ver
  put_byte m.com_type
  put_byte m.pos_confidence
  put_byte m.time_sync
  put_byte m.gnss_type
  put_byte m.user_data_len
  put_user_data m.user_data_len m.user_data

unfoldable pub to_bytes : Veh2CloudInh → Buffer → ℕ → Bool → Run (Buffer × ℕ)
unfolding put_fields Header.to_bytes put_behind
to_bytes m none size be = ok (none, 0)
to_bytes m (some buf) size be =
    let len = sub_size (length m) sizeof_header in
    bind (Header.to_bytes m.header (some buf) size be)
      (λ p. put_behind (put_fields m) size len p.0 p.1)
