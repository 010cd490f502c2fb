-- ===== src/Message/InhRes.antt =====
-- include/protocol/message/veh2cloud_inh.h, CLOUD2VEH_INH_RES: the cloud's answer to VEH2CLOUD_INH.
pub mod Codec
pub mod Print
use csae.Prelude.{ℕ, ◌+◌, ◌-◌, Bool, true, List, Run, bind}
use csae.Prelude
use csae.Memory.Read.{Reader, ◌>>=◌, done, get_byte, get_bytes}
use csae.Memory.Write.{Writer, ◌>>◌, put_byte, put_copy}
use csae.Memory.Buffer.{Buffer, put_behind, get_behind}
use csae.Memory.Text.{strncpy, clip}
use csae.Message.Header
use csae.Message.Header.{MessageHeader, sizeof_header, cloud2veh_inh_res, new_header, default_init}

-- `MessageHeader` is the base class.
pub record Cloud2VehInhRes : Type 0 where
  pub header : MessageHeader
  pub vehicle_id : List ℕ  -- char[8]
  pub res : ℕ  -- uint8_t

-- sizeof(Cloud2VehInhRes), under `#pragma pack(1)`.
abbrev pub sizeof_inh_res : ℕ
sizeof_inh_res = sizeof_header + 8 + 1

-- The constructor over the fields. `vehicle_id` has no default initialiser: `raw_id` is what its
-- storage held.
unfoldable pub new_inh_res : List ℕ → ℕ → ℕ → ℕ → List ℕ → ℕ → Cloud2VehInhRes
unfolding strncpy new_header
new_inh_res raw_id version timestamp ctrl vehicle_id res = record {
  header = new_header (sizeof_inh_res - sizeof_header) cloud2veh_inh_res version timestamp ctrl;
  vehicle_id = strncpy raw_id vehicle_id (clip 8 (Prelude.length vehicle_id));
  res = res;
}

-- What the constructor over a buffer starts from.
unfoldable pub default_inh_res : Cloud2VehInhRes → Cloud2VehInhRes
unfolding default_init
default_inh_res raw = record raw { header = default_init raw.header }

abbrev pub length : Cloud2VehInhRes → ℕ
length m = sizeof_inh_res

unfoldable pub get_fields : Cloud2VehInhRes → Reader Cloud2VehInhRes
unfolding ◌>>=◌ done get_byte get_bytes
get_fields m = do
  vehicle_id ← get_bytes 8
  res ← get_byte
  done (record { header = m.header; vehicle_id = vehicle_id; res = res })

-- There is no test for a null pointer, and the length tested is the `data_len` that was read.
unfoldable pub from_bytes : Cloud2VehInhRes → Buffer → ℕ → Bool → Run (Cloud2VehInhRes × ℕ)
unfolding get_fields Header.from_bytes get_behind
from_bytes m buf size be = bind (Header.from_bytes m.header buf size be) λ p.
    let m' = record m { header = p.0 } in
    get_behind m' (get_fields m') size m'.header.data_len buf p.1

unfoldable pub put_fields : Cloud2VehInhRes → Writer
unfolding ◌>>◌ put_byte put_copy
put_fields m = do put_copy m.vehicle_id 8; put_byte m.res

-- The header is written with the default byte order, whatever `be` says.
unfoldable pub to_bytes : Cloud2VehInhRes → Buffer → ℕ → Bool → Run (Buffer × ℕ)
unfolding put_fields Header.to_bytes put_behind
to_bytes m buf size be =
    bind (Header.to_bytes m.header buf size true)
      (λ p. put_behind (put_fields m) size m.header.data_len p.0 p.1)
