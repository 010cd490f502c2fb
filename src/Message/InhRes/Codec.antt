-- ===== src/Message/InhRes/Codec.antt =====
-- The fields of CLOUD2VEH_INH_RES on the wire.
use csae.Prelude.{
  ℕ, ◌+◌, ◌^◌, ◌≤◌, ◌<◌, ◌≡◌, ◌∙◌, Bool, true, false, some, List, ◌++◌, arith, leb, if◌then◌else◌,
  length-append, Run, ok, fault,
}
use csae.Prelude
use csae.Memory.Word.{word_bytes, length-word_bytes}
use csae.Memory.Read.Laws.{Reads, bind-Reads, map-Reads, get_byte-Reads, get_bytes-Reads}
use csae.Memory.Read.Safe.{Safe, Any, bind-Safe, done-Safe, get_byte-Safe, get_bytes-Safe}
use csae.Memory.Write.{splice}
use csae.Memory.Write.Laws.{Writes, seq-Writes, put_byte-Writes}
use csae.Memory.Buffer.Laws.{put_behind-Writes, keep-Writes, get_behind-Reads}
use csae.Memory.Text.Laws.{put_eight-Writes}
use csae.Message.Header.Codec
use csae.Message.InhRes.{
  Cloud2VehInhRes, default_inh_res, get_fields, put_fields, to_bytes, from_bytes,
}

unfoldable pub body : Cloud2VehInhRes → List ℕ
body m = m.vehicle_id ++ word_bytes false 1 m.res

-- The header stands in big-endian order.
unfoldable pub encode : Cloud2VehInhRes → List ℕ
unfolding body
encode m = Codec.encode m.header true ++ body m

-- The fields fit their C types, and `data_len` is the length of the two fields.
pub record IsValid (m : Cloud2VehInhRes) : Type 0 where
  pub header_valid : Codec.IsValid m.header
  pub data_len_exact : m.header.data_len ≡ 9
  pub vehicle_id_size : Prelude.length m.vehicle_id ≡ 8
  pub res_range : m.res < 256

pub put_fields-Writes : (m : Cloud2VehInhRes) → IsValid m → Writes (put_fields m) (body m)
unfolding put_fields body
put_fields-Writes m v =
    seq-Writes (put_eight-Writes m.vehicle_id v.vehicle_id_size) (put_byte-Writes m.res)

pub length-encode : (m : Cloud2VehInhRes) → IsValid m → Prelude.length (encode m) ≡ 25
unfolding encode
length-encode m v = simp (length-append, length-word_bytes, Codec.length-encode, v.vehicle_id_size)

-- With a size of at least 25 and below 2^64, `to_bytes` of a valid Cloud2VehInhRes writes its wire
-- format at the start of the buffer and returns how many bytes that is, if they fit the buffer, and
-- writes outside the buffer if they do not.
pub to_bytes-encode_inh_res :
    (m : Cloud2VehInhRes) (buf : List ℕ) (size : ℕ) (be : Bool)
    → IsValid m
    → 25 ≤ size
    → size < 2 ^ 64
    → to_bytes m (some buf) size be ≡ (
        if leb (Prelude.length (encode m)) (Prelude.length buf)
        then ok (some (splice 0 (encode m) buf), Prelude.length (encode m))
        else fault)
unfolding to_bytes encode
to_bytes-encode_inh_res m buf size be v le lt =
    rw (Codec.to_bytes_lem m.header buf size true (omega arith)) (
      put_behind-Writes (put_fields m) buf size _ (Codec.put_fields-Writes m.header true)
        (rw Codec.length-encode (omega arith)) lt
      ∙ keep-Writes buf
          (seq-Writes (Codec.put_fields-Writes m.header true) (put_fields-Writes m v)))

pub get_fields-Reads :
    (m raw : Cloud2VehInhRes)
    → IsValid m
    → Reads (get_fields (record (default_inh_res raw) { header = m.header })) (body m) m
unfolding get_fields default_inh_res body
get_fields-Reads m raw v =
    bind-Reads _ (get_bytes-Reads 8 m.vehicle_id v.vehicle_id_size)
      (map-Reads _ (get_byte-Reads m.res v.res_range))

-- With a size of at least 25 and below 2^64, the constructor over the wire format of a valid
-- Cloud2VehInhRes, and any bytes behind it, makes that message and returns its length.
pub from_bytes-encode_inh_res :
    (m raw : Cloud2VehInhRes) (post : List ℕ) (size : ℕ)
    → IsValid m
    → 25 ≤ size
    → size < 2 ^ 64
    → from_bytes (default_inh_res raw) (some (encode m ++ post)) size true
      ≡ ok (m, Prelude.length (encode m))
unfolding from_bytes encode default_inh_res
from_bytes-encode_inh_res m raw post size v le lt =
    rw (Codec.from_bytes_lem _ (encode m ++ post) size true (omega arith)) (
      get_behind-Reads (λ h. get_fields (record (default_inh_res raw) { header = h }))
        (λ h. record (default_inh_res raw) { header = h }) _ post size
        (Codec.get_fields-Reads m.header true v.header_valid) (get_fields-Reads m raw v)
        (rw (Codec.length-encode, v.data_len_exact) le) lt)

pub get_fields-Safe : (m : Cloud2VehInhRes) → Safe (get_fields m) Any 9
unfolding get_fields
get_fields-Safe m =
    bind-Safe (get_bytes-Safe 8 (omega arith))
      λ _ _. bind-Safe get_byte-Safe λ _ _. done-Safe _ Any tt
