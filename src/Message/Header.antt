-- ===== src/Message/Header.antt =====
-- include/protocol/message/message.h: the message header, and its byte format.
pub mod Codec
pub mod Print
use csae.Prelude.{ℕ, ◌+◌, ◌*◌, Bool, none, some, ltb, if◌then◌else◌, Run, ok}
use csae.Memory.Read.{Reader, ◌>>=◌, done, get_byte, get_word}
use csae.Memory.Write.{Writer, ◌>>◌, put_byte, put_word}
use csae.Memory.Buffer.{Buffer, keep}

abbrev pub veh2cloud_inh : ℕ
veh2cloud_inh = 0x34

abbrev pub cloud2veh_inh_res : ℕ
cloud2veh_inh_res = 0x35

abbrev pub veh2cloud_state : ℕ
veh2cloud_state = 0x15

abbrev pub heartbeat : ℕ
heartbeat = 0x0c

abbrev pub heartbeat_res : ℕ
heartbeat_res = 0x0d

abbrev pub version_01 : ℕ
version_01 = 0x01

abbrev pub version_02 : ℕ
version_02 = 0x02

-- CTRL_PRIORITY_7 | CTRL_ENCRYPTION_NONE: (7 << 2) | (0 << 5).
abbrev pub ctrl_priority_7 : ℕ
ctrl_priority_7 = 7 * 4

pub record MessageHeader : Type 0 where
  pub id : ℕ  -- uint8_t
  pub data_len : ℕ  -- uint32_t
  pub data_type : ℕ  -- uint8_t
  pub version : ℕ  -- uint8_t
  pub timestamp : ℕ  -- uint64_t
  pub ctrl : ℕ  -- uint8_t

-- sizeof(MessageHeader), under `#pragma pack(1)`.
abbrev pub sizeof_header : ℕ
sizeof_header = 1 + 4 + 1 + 1 + 8 + 1

-- The constructor over the fields.
unfoldable pub new_header : ℕ → ℕ → ℕ → ℕ → ℕ → MessageHeader
new_header data_len data_type version timestamp ctrl = record {
  id = 0xf2;
  data_len = data_len;
  data_type = data_type;
  version = version;
  timestamp = timestamp;
  ctrl = ctrl;
}

-- What the constructor over a buffer starts from: the default initialiser of `id`, and whatever the
-- storage `raw` held in the other fields.
unfoldable pub default_init : MessageHeader → MessageHeader
default_init raw = record raw { id = 0xf2 }

abbrev pub header_length : MessageHeader → ℕ
header_length h = sizeof_header

abbrev pub data_length : MessageHeader → ℕ
data_length h = h.data_len

abbrev pub length : MessageHeader → ℕ
length h = sizeof_header

-- The body of `from_bytes`, from `id` to `ctrl`.
unfoldable pub get_fields : Bool → Reader MessageHeader
unfolding ◌>>=◌ done get_byte get_word
get_fields be = do
  id ← get_byte
  data_len ← get_word be 4
  data_type ← get_byte
  version ← get_byte
  timestamp ← get_word be 8
  ctrl ← get_byte
  done (record {
    id = id;
    data_len = data_len;
    data_type = data_type;
    version = version;
    timestamp = timestamp;
    ctrl = ctrl;
  })

unfoldable pub from_bytes : MessageHeader → Buffer → ℕ → Bool → Run (MessageHeader × ℕ)
unfolding get_fields
from_bytes h none size be = ok (h, 0)
from_bytes h (some buf) size be = if ltb size (length h) then ok (h, 0) else get_fields be buf 0

-- The body of `to_bytes`, from `id` to `ctrl`.
unfoldable pub put_fields : MessageHeader → Bool → Writer
unfolding ◌>>◌ put_byte put_word
put_fields h be = do
  put_byte h.id
  put_word be 4 h.data_len
  put_byte h.data_type
  put_byte h.version
  put_word be 8 h.timestamp
  put_byte h.ctrl

unfoldable pub to_bytes : MessageHeader → Buffer → ℕ → Bool → Run (Buffer × ℕ)
unfolding put_fields
to_bytes h none size be = ok (none, 0)
to_bytes h (some buf) size be =
    if ltb size (length h) then ok (some buf, 0) else keep (put_fields h be buf 0)
