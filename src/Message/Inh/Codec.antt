-- ===== src/Message/Inh/Codec.antt =====
-- The bytes that the code writes for a VEH2CLOUD_INH, which differ from its format where the three
-- versions do.
use csae.Prelude.{
  ℕ, ◌+◌, ◌-◌, ◌*◌, ◌^◌, ◌≤◌, ◌<◌, ◌≡◌, ◌∙◌, Bool, false, some, List, [], ◌++◌, arith, leb,
  if◌then◌else◌, length-append, All, Run, ok, fault,
}
use csae.Prelude
use csae.Memory.Word.{word_bytes, length-word_bytes}
use csae.Memory.Read.Laws.{
  Reads, bind-Reads, map-Reads, get_byte-Reads, get_byte_at-Reads, get_bytes-Reads,
}
use csae.Memory.Read.Safe.{Safe, Any, bind-Safe, done-Safe, get_byte-Safe, get_bytes-Safe}
use csae.Memory.Write.{splice}
use csae.Memory.Write.Laws.{Writes, seq-Writes, put_byte-Writes}
use csae.Memory.Buffer.Laws.{put_behind-Writes, keep-Writes, get_behind-Reads}
use csae.Memory.Text.Laws.{
  text_bytes, put_eight-Writes, put_text-Writes, put_user_data-Writes, get_text_bytes-Reads,
  get_user_data_at-Reads, length-text_bytes, get_text-Safe, get_user_data-Safe,
}
use csae.Message.Header.{sizeof_header}
use csae.Message.Header.Codec
use csae.Message.Inh.{
  Veh2CloudInh, length, default_inh, get_fields, put_fields, to_bytes, from_bytes,
}

-- What `to_bytes` puts behind the header. The two other version fields hold bytes of `sw_ver`.
unfoldable pub body : Veh2CloudInh → List ℕ
body m =
    m.vehicle_id
    ++ (word_bytes false 1 m.sw_ver_len
        ++ (text_bytes m.sw_ver_len m.sw_ver
            ++ (word_bytes false 1 m.sw_ver_len
                ++ (text_bytes m.hw_ver_len m.sw_ver
                    ++ (word_bytes false 1 m.ad_ver_len
                        ++ (text_bytes m.ad_ver_len m.sw_ver
                            ++ (word_bytes false 1 m.com_type
                                ++ (word_bytes false 1 m.pos_confidence
                                    ++ (word_bytes false 1 m.time_sync
                                        ++ (word_bytes false 1 m.gnss_type
                                            ++ (word_bytes false 1 m.user_data_len
                                                ++ m.user_data)))))))))))

unfoldable pub encode : Veh2CloudInh → Bool → List ℕ
unfolding body
encode m be = Codec.encode m.header be ++ body m

-- The fields fit their C types, and each length byte is that of its text.
pub record IsValid (m : Veh2CloudInh) : Type 0 where
  pub header_valid : Codec.IsValid m.header
  pub vehicle_id_size : Prelude.length m.vehicle_id ≡ 8
  pub sw_ver_size : m.sw_ver_len ≡ Prelude.length m.sw_ver
  pub sw_ver_short : m.sw_ver_len < 255
  pub hw_ver_size : m.hw_ver_len ≡ Prelude.length m.hw_ver
  pub hw_ver_short : m.hw_ver_len < 255
  pub ad_ver_size : m.ad_ver_len ≡ Prelude.length m.ad_ver
  pub ad_ver_short : m.ad_ver_len < 255
  pub com_type_range : m.com_type < 256
  pub pos_confidence_range : m.pos_confidence < 256
  pub time_sync_range : m.time_sync < 256
  pub gnss_type_range : m.gnss_type < 256
  pub user_data_size : m.user_data_len ≡ Prelude.length m.user_data
  pub user_data_short : m.user_data_len < 256

pub put_fields-Writes :
    (m : Veh2CloudInh)
    → IsValid m
    → m.hw_ver_len ≤ m.sw_ver_len + 1
    → m.ad_ver_len ≤ m.sw_ver_len + 1
    → Writes (put_fields m) (body m)
unfolding put_fields body
put_fields-Writes m v hw ad = seq-Writes (put_eight-Writes m.vehicle_id v.vehicle_id_size) (
    seq-Writes (put_byte-Writes m.sw_ver_len) (
      seq-Writes (put_text-Writes m.sw_ver_len m.sw_ver (omega arith)) (
        seq-Writes (put_byte-Writes m.sw_ver_len) (
          seq-Writes (put_text-Writes m.hw_ver_len m.sw_ver (omega arith)) (
            seq-Writes (put_byte-Writes m.ad_ver_len) (
              seq-Writes (put_text-Writes m.ad_ver_len m.sw_ver (omega arith)) (
                seq-Writes (put_byte-Writes m.com_type) (
                  seq-Writes (put_byte-Writes m.pos_confidence) (
                    seq-Writes (put_byte-Writes m.time_sync) (
                      seq-Writes (put_byte-Writes m.gnss_type) (
                        seq-Writes (put_byte-Writes m.user_data_len)
                          (rw v.user_data_size (put_user_data-Writes m.user_data)))))))))))))

pub length-body :
    (m : Veh2CloudInh)
    → IsValid m
    → m.hw_ver_len ≤ m.sw_ver_len + 1
    → m.ad_ver_len ≤ m.sw_ver_len + 1
    → Prelude.length (body m) ≡ 16 + m.sw_ver_len + m.hw_ver_len + m.ad_ver_len + m.user_data_len
unfolding body
length-body m v hw ad =
    simp
      (
        length-append,
        length-word_bytes,
        v.vehicle_id_size,
        length-text_bytes m.sw_ver_len m.sw_ver v.sw_ver_short (omega arith),
        length-text_bytes m.hw_ver_len m.sw_ver v.hw_ver_short (omega arith),
        length-text_bytes m.ad_ver_len m.sw_ver v.ad_ver_short (omega arith),
      )
      (omega arith)

-- With a size of at least `length()` and below 2^64, `to_bytes` of a valid Veh2CloudInh whose
-- second and third version are at most one byte longer than the first writes the bytes of `encode`
-- at the start of the buffer and returns how many these are, if they fit the buffer, and writes
-- outside the buffer if they do not.
pub to_bytes-encode_inh :
    (m : Veh2CloudInh) (buf : List ℕ) (size : ℕ) (be : Bool)
    → IsValid m
    → m.hw_ver_len ≤ m.sw_ver_len + 1
    → m.ad_ver_len ≤ m.sw_ver_len + 1
    → length m ≤ size
    → size < 2 ^ 64
    → to_bytes m (some buf) size be ≡ (
        if leb (Prelude.length (encode m be)) (Prelude.length buf)
        then ok (some (splice 0 (encode m be) buf), Prelude.length (encode m be))
        else fault)
unfolding to_bytes encode
to_bytes-encode_inh m buf size be v hw ad le lt =
    rw (Codec.to_bytes_lem m.header buf size be (omega arith)) (
      put_behind-Writes (put_fields m) buf size _ (Codec.put_fields-Writes m.header be)
        (rw Codec.length-encode (omega arith)) lt
      ∙ keep-Writes buf
          (seq-Writes (Codec.put_fields-Writes m.header be) (put_fields-Writes m v hw ad)))

-- All three version texts have the length of the first one.
pub record SameLengths (m : Veh2CloudInh) : Type 0 where
  pub hw_same : m.hw_ver_len ≡ m.sw_ver_len
  pub ad_same : m.ad_ver_len ≡ m.sw_ver_len

-- The message that the peer reads.
abbrev pub as_read : Veh2CloudInh → Veh2CloudInh
as_read m = record m { hw_ver = m.sw_ver; ad_ver = m.sw_ver }

pub get_fields-Reads :
    (m raw : Veh2CloudInh)
    → IsValid m
    → SameLengths m
    → Reads (get_fields (record (default_inh raw) { header = m.header })) (body m) (as_read m)
unfolding get_fields default_inh body
get_fields-Reads m raw v e = bind-Reads _ (get_bytes-Reads 8 m.vehicle_id v.vehicle_id_size) (
    bind-Reads _ (get_byte-Reads m.sw_ver_len (omega arith)) (
      bind-Reads _ (get_text_bytes-Reads m.sw_ver_len m.sw_ver v.sw_ver_size v.sw_ver_short) (
        bind-Reads _ (get_byte_at-Reads m.hw_ver_len m.sw_ver_len e.hw_same (omega arith)) (
          bind-Reads _ (get_text_bytes-Reads m.hw_ver_len m.sw_ver (omega arith) v.hw_ver_short) (
            bind-Reads _ (get_byte-Reads m.ad_ver_len (omega arith)) (
              bind-Reads _ (get_text_bytes-Reads m.ad_ver_len m.sw_ver (omega arith) v.ad_ver_short)
                (bind-Reads _ (get_byte-Reads m.com_type v.com_type_range) (
                  bind-Reads _ (get_byte-Reads m.pos_confidence v.pos_confidence_range) (
                    bind-Reads _ (get_byte-Reads m.time_sync v.time_sync_range) (
                      bind-Reads _ (get_byte-Reads m.gnss_type v.gnss_type_range) (
                        bind-Reads _ (get_byte-Reads m.user_data_len v.user_data_short) (
                          map-Reads _ (
                            get_user_data_at-Reads m.user_data_len m.user_data
                              v.user_data_size)))))))))))))

pub length-encode :
    (m : Veh2CloudInh) (be : Bool)
    → IsValid m
    → SameLengths m
    → Prelude.length (encode m be) ≡ 32 + 3 * m.sw_ver_len + m.user_data_len
unfolding encode
length-encode m be v e = omega (
  arith,
  length-append (Codec.encode m.header be) (body m),
  Codec.length-encode m.header be,
  length-body m v (omega arith) (omega arith),
)

-- With a size below 2^64 that covers the wire format, the constructor over the bytes that
-- `to_bytes` writes for a valid Veh2CloudInh whose three versions have the same length, and any
-- bytes behind, makes that message with the first version in the place of the other two, and
-- returns the length.
pub from_bytes-encode_inh :
    (m raw : Veh2CloudInh) (post : List ℕ) (size : ℕ) (be : Bool)
    → IsValid m
    → SameLengths m
    → Prelude.length (encode m be) ≤ size
    → size < 2 ^ 64
    → from_bytes (default_inh raw) (some (encode m be ++ post)) size be
      ≡ ok (as_read m, Prelude.length (encode m be))
unfolding from_bytes encode default_inh
from_bytes-encode_inh m raw post size be v e le lt =
    let size_ok : sizeof_header + 16 ≤ size = omega (
      arith,
      length-append (Codec.encode m.header be) (body m),
      Codec.length-encode m.header be,
      length-body m v (omega arith) (omega arith),
    ) in
    rw (Codec.from_bytes_lem _ (encode m be ++ post) size be (omega arith)) (
      get_behind-Reads (λ h. get_fields (record (default_inh raw) { header = h }))
        (λ h. record (default_inh raw) { header = h }) _ post size
        (Codec.get_fields-Reads m.header be v.header_valid) (get_fields-Reads m raw v e)
        (rw Codec.length-encode size_ok) lt)

pub get_fields-Safe : (m : Veh2CloudInh) → Safe (get_fields m) Any (8 + 3 * 255 + 5 + 255)
unfolding get_fields
get_fields-Safe m = bind-Safe (get_bytes-Safe 8 (omega arith)) λ _ _.
    bind-Safe get_byte-Safe λ sw hsw. bind-Safe (get_text-Safe sw m.sw_ver hsw) λ _ _.
      bind-Safe get_byte-Safe λ hw hhw. bind-Safe (get_text-Safe hw m.hw_ver hhw) λ _ _.
        bind-Safe get_byte-Safe λ ad had. bind-Safe (get_text-Safe ad m.ad_ver had) λ _ _.
          bind-Safe get_byte-Safe λ _ _. bind-Safe get_byte-Safe λ _ _.
            bind-Safe get_byte-Safe λ _ _. bind-Safe get_byte-Safe λ _ _.
              bind-Safe get_byte-Safe λ ud hud.
                bind-Safe (get_user_data-Safe ud m.user_data hud) λ _ _. done-Safe _ Any tt
