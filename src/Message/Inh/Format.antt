-- ===== src/Message/Inh/Format.antt =====
-- The format of VEH2CLOUD_INH that the fields stand for and that `from_bytes` reads, and when
-- `to_bytes` keeps to it.
use csae.Prelude.{
  ℕ, ◌^◌, ◌≤◌, ◌<◌, ◌≡◌, ap, Bool, true, false, some, List, ◌++◌, arith, leb, if◌then◌else◌, Run,
  ok, fault,
}
use csae.Prelude
use csae.Memory.Word.{word_bytes}
use csae.Memory.Write.{splice}
use csae.Memory.Text.Laws.{text_bytes, text_bytes-length}
use csae.Message.Header.Codec
use csae.Message.Inh.{Veh2CloudInh, length, to_bytes}
use csae.Message.Inh.Codec.{body, encode, IsValid, SameLengths, as_read, to_bytes-encode_inh}

-- The fields behind the header, each version behind its own length.
unfoldable pub fields_bytes : Veh2CloudInh → List ℕ
fields_bytes m =
    m.vehicle_id
    ++ (word_bytes false 1 m.sw_ver_len
        ++ (m.sw_ver
            ++ (word_bytes false 1 m.hw_ver_len
                ++ (m.hw_ver
                    ++ (word_bytes false 1 m.ad_ver_len
                        ++ (m.ad_ver
                            ++ (word_bytes false 1 m.com_type
                                ++ (word_bytes false 1 m.pos_confidence
                                    ++ (word_bytes false 1 m.time_sync
                                        ++ (word_bytes false 1 m.gnss_type
                                            ++ (word_bytes false 1 m.user_data_len
                                                ++ m.user_data)))))))))))

unfoldable pub wire_format : Veh2CloudInh → Bool → List ℕ
unfolding fields_bytes
wire_format m be = Codec.encode m.header be ++ fields_bytes m

text_bytes_lem : (len : ℕ) (s : List ℕ) → len ≡ Prelude.length s → len < 255 → text_bytes len s ≡ s
text_bytes_lem len s e lt = rw e (text_bytes-length s (omega arith))

-- With versions of one length, the bytes that `to_bytes` writes are the format of the message that
-- has the first version in the place of the other two.
encode-wire_format :
    (m : Veh2CloudInh) (be : Bool)
    → IsValid m
    → SameLengths m
    → encode m be ≡ wire_format (as_read m) be
unfolding encode body wire_format fields_bytes
encode-wire_format m be v e =
    let hw : m.hw_ver_len ≡ Prelude.length m.sw_ver = omega (arith, e.hw_same, v.sw_ver_size) in
    let ad : m.ad_ver_len ≡ Prelude.length m.sw_ver = omega (arith, e.ad_same, v.sw_ver_size) in
    rw (
      text_bytes_lem m.sw_ver_len m.sw_ver v.sw_ver_size v.sw_ver_short,
      text_bytes_lem m.hw_ver_len m.sw_ver hw v.hw_ver_short,
      text_bytes_lem m.ad_ver_len m.sw_ver ad v.ad_ver_short,
      e.hw_same,
    )

-- With a size of at least `length()` and below 2^64, `to_bytes` of a valid Veh2CloudInh whose three
-- versions have one length writes, at the start of the buffer, the format (each version behind its
-- own length) of the message that has the first version in the place of the other two, and returns
-- how many bytes that is, if they fit the buffer, and writes outside the buffer if they do not.
pub to_bytes-wire_format :
    (m : Veh2CloudInh) (buf : List ℕ) (size : ℕ) (be : Bool)
    → IsValid m
    → SameLengths m
    → length m ≤ size
    → size < 2 ^ 64
    → to_bytes m (some buf) size be ≡ (
        if leb (Prelude.length (wire_format (as_read m) be)) (Prelude.length buf)
        then ok (
          some (splice 0 (wire_format (as_read m) be) buf),
          Prelude.length (wire_format (as_read m) be),
        )
        else fault)
to_bytes-wire_format m buf size be v e le lt = rw (encode-wire_format m be v e) at (
    to_bytes-encode_inh m buf size be v (omega (arith, e.hw_same)) (omega (arith, e.ad_same)) le lt)
