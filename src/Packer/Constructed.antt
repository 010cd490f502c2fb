-- ===== src/Packer/Constructed.antt =====
-- The packer on messages that a constructor made.
pub mod States
use csae.Prelude.{
  ℕ, ◌+◌, ◌*◌, ◌^◌, ◌≤◌, ◌<◌, ◌≡◌, ◌⊎◌, inl, inr, refl, Option, some, List, arith, length, leb,
  lt→leb, Run, ok,
}
use csae.Memory.Text.{text_len, clip, strncpy, eight_zeros}
use csae.Memory.Text.Laws.{length-strncpy}
use csae.Message.Header.{
  MessageHeader, heartbeat, heartbeat_res, veh2cloud_inh, cloud2veh_inh_res, new_header,
}
use csae.Message.Header.Codec
use csae.Message.Inh.{Veh2CloudInh, new_inh}
use csae.Message.Inh.Codec as InhCodec
use csae.Message.InhRes.{Cloud2VehInhRes, new_inh_res}
use csae.Message.InhRes.Codec as InhResCodec
use csae.Packer.{
  header_message, inh_message, inh_res_message, AnyMessage, header, inh, inh_res, Handler, Storage,
  notify,
}
use csae.Packer.Unpack.{IsFramed}
use csae.Packer.RoundTrip.{sent, unpack-pack_header, unpack-pack_inh, unpack-pack_inh_res}

-- The arguments that every constructor passes to the header, in the range of their types.
pub record HeaderInRange (version timestamp ctrl : ℕ) : Type 0 where
  pub version_range : version < 256
  pub timestamp_range : timestamp < 2 ^ 64
  pub ctrl_range : ctrl < 256

pub new_header-IsValid :
    (data_len data_type version timestamp ctrl : ℕ)
    → data_len < 2 ^ 32
    → data_type < 256
    → HeaderInRange version timestamp ctrl
    → Codec.IsValid (new_header data_len data_type version timestamp ctrl)
unfolding new_header
new_header-IsValid data_len data_type version timestamp ctrl d t r = record {
  id_range = omega arith;
  data_len_range = d;
  data_type_range = t;
  version_range = r.version_range;
  timestamp_range = r.timestamp_range;
  ctrl_range = r.ctrl_range;
}

pub new_inh_res-IsValid :
    (raw_id : List ℕ) (version timestamp ctrl : ℕ) (vehicle_id : List ℕ) (res : ℕ)
    → length raw_id ≡ 8
    → HeaderInRange version timestamp ctrl
    → res < 256
    → InhResCodec.IsValid (new_inh_res raw_id version timestamp ctrl vehicle_id res)
unfolding new_inh_res new_header
new_inh_res-IsValid raw_id version timestamp ctrl vehicle_id res e r h = record {
  header_valid =
      new_header-IsValid 9 cloud2veh_inh_res version timestamp ctrl (omega arith) (omega arith) r;
  data_len_exact = refl;
  vehicle_id_size = rw length-strncpy e;
  res_range = h;
}

pub new_inh_res-IsFramed :
    (raw_id : List ℕ) (version timestamp ctrl : ℕ) (vehicle_id : List ℕ) (res : ℕ)
    → IsFramed (new_inh_res raw_id version timestamp ctrl vehicle_id res).header cloud2veh_inh_res 9
unfolding new_inh_res new_header
new_inh_res-IsFramed raw_id version timestamp ctrl vehicle_id res = record {
  id_is = refl;
  type_is = refl;
  len_is = refl;
}

text_len_short : (s : List ℕ) → length s < 255 → text_len s ≡ length s
text_len_short s h = rw (lt→leb 255 (length s) h)

-- Three version texts of one length below 255, user data below 255 bytes, and single bytes.
pub record InhInRange (sw_ver hw_ver ad_ver : List ℕ)
    (com_type pos_confidence time_sync gnss_type : ℕ) (user_data : List ℕ) : Type 0 where
  pub sw_ver_short : length sw_ver < 255
  pub hw_ver_same : length hw_ver ≡ length sw_ver
  pub ad_ver_same : length ad_ver ≡ length sw_ver
  pub com_type_range : com_type < 256
  pub pos_confidence_range : pos_confidence < 256
  pub time_sync_range : time_sync < 256
  pub gnss_type_range : gnss_type < 256
  pub user_data_short : length user_data < 255

module _ (version timestamp ctrl : ℕ) (vehicle_id sw_ver hw_ver ad_ver : List ℕ)
    (com_type pos_confidence time_sync gnss_type : ℕ) (user_data : List ℕ)
    (r : HeaderInRange version timestamp ctrl)
    (t : InhInRange sw_ver hw_ver ad_ver com_type pos_confidence time_sync gnss_type
      user_data) where
  abbrev pub announced : Veh2CloudInh
  announced =
      new_inh version timestamp ctrl vehicle_id sw_ver hw_ver ad_ver com_type pos_confidence
        time_sync gnss_type user_data

  sw_len : text_len sw_ver ≡ length sw_ver
  sw_len = text_len_short sw_ver t.sw_ver_short

  hw_len : text_len hw_ver ≡ length hw_ver
  hw_len = text_len_short hw_ver (omega (arith, t.hw_ver_same, t.sw_ver_short))

  ad_len : text_len ad_ver ≡ length ad_ver
  ad_len = text_len_short ad_ver (omega (arith, t.ad_ver_same, t.sw_ver_short))

  user_len : text_len user_data ≡ length user_data
  user_len = text_len_short user_data t.user_data_short

  pub announced-IsValid : InhCodec.IsValid announced
  unfolding new_inh new_header
  announced-IsValid = record {
    header_valid =
        new_header-IsValid _ veh2cloud_inh version timestamp ctrl (omega arith) (omega arith) r;
    vehicle_id_size = rw length-strncpy refl;
    sw_ver_size = sw_len;
    sw_ver_short = omega (arith, sw_len, t.sw_ver_short);
    hw_ver_size = hw_len;
    hw_ver_short = omega (arith, hw_len, t.hw_ver_same, t.sw_ver_short);
    ad_ver_size = ad_len;
    ad_ver_short = omega (arith, ad_len, t.ad_ver_same, t.sw_ver_short);
    com_type_range = t.com_type_range;
    pos_confidence_range = t.pos_confidence_range;
    time_sync_range = t.time_sync_range;
    gnss_type_range = t.gnss_type_range;
    user_data_size = user_len;
    user_data_short = omega (arith, user_len, t.user_data_short);
  }

  pub announced-SameLengths : InhCodec.SameLengths announced
  unfolding new_inh
  announced-SameLengths = record {
    hw_same = omega (arith, hw_len, sw_len, t.hw_ver_same);
    ad_same = omega (arith, ad_len, sw_len, t.ad_ver_same);
  }

  pub announced-IsFramed :
      IsFramed announced.header veh2cloud_inh
        (16 + 3 * announced.sw_ver_len + announced.user_data_len)
  unfolding new_inh new_header
  announced-IsFramed = record {
    id_is = refl;
    type_is = refl;
    len_is = omega (
      arith, hw_len, ad_len, sw_len, user_len, t.hw_ver_same, t.ad_ver_same, t.sw_ver_short,
      t.user_data_short,
    );
  }

module _ (stack : ℕ → List ℕ) (room : (n : ℕ) → length (stack n) ≡ n) {S : Type 0} (raw : Storage)
    (handler : Option (Handler S)) (s : S) where
  -- A header that the constructor makes with `data_len` 0, the type HEARTBEAT or HEARTBEAT_RES
  -- and any version, timestamp and control byte in the range of their types is unpacked from its
  -- packed bytes as it was, and handed to the handler.
  pub sent-new_header :
      (data_type version timestamp ctrl : ℕ)
      → (data_type ≡ heartbeat) ⊎ (data_type ≡ heartbeat_res)
      → HeaderInRange version timestamp ctrl
      → sent stack room raw handler s (new_header 0 data_type version timestamp ctrl)
        ≡ ok (
          some (header (new_header 0 data_type version timestamp ctrl)),
          notify handler (header (new_header 0 data_type version timestamp ctrl)) s,
        )
  unfolding new_header
  sent-new_header data_type version timestamp ctrl (inl e) r =
      unpack-pack_header stack room raw handler s _
        (new_header-IsValid 0 data_type version timestamp ctrl (omega arith) (omega arith) r)
        (inl (record { id_is = refl; type_is = e; len_is = refl }))
  sent-new_header data_type version timestamp ctrl (inr e) r =
      unpack-pack_header stack room raw handler s _
        (new_header-IsValid 0 data_type version timestamp ctrl (omega arith) (omega arith) r)
        (inr (record { id_is = refl; type_is = e; len_is = refl }))

  -- A CLOUD2VEH_INH_RES message that the constructor makes, with any vehicle id, any result and
  -- header arguments in the range of their types, and whatever the eight bytes of its storage for
  -- the id held, is unpacked from its packed bytes as it was, and handed to the handler.
  pub sent-new_inh_res :
      (raw_id : List ℕ) (version timestamp ctrl : ℕ) (vehicle_id : List ℕ) (res : ℕ)
      → length raw_id ≡ 8
      → HeaderInRange version timestamp ctrl
      → res < 256
      → sent stack room raw handler s (new_inh_res raw_id version timestamp ctrl vehicle_id res)
        ≡ ok (
          some (inh_res (new_inh_res raw_id version timestamp ctrl vehicle_id res)),
          notify handler (inh_res (new_inh_res raw_id version timestamp ctrl vehicle_id res)) s,
        )
  sent-new_inh_res raw_id version timestamp ctrl vehicle_id res e r h =
      unpack-pack_inh_res stack room raw handler s _
        (new_inh_res-IsValid raw_id version timestamp ctrl vehicle_id res e r h)
        (new_inh_res-IsFramed raw_id version timestamp ctrl vehicle_id res)

  -- A VEH2CLOUD_INH message that the constructor makes, with three versions of one length below
  -- 255, user data below 255 bytes and the other arguments in the range of their types, is
  -- unpacked from its packed bytes with the first version in the place of the other two and
  -- otherwise as it was, and handed to the handler.
  pub sent-new_inh :
      (version timestamp ctrl : ℕ) (vehicle_id sw_ver hw_ver ad_ver : List ℕ)
      (com_type pos_confidence time_sync gnss_type : ℕ) (user_data : List ℕ)
      → HeaderInRange version timestamp ctrl
      → InhInRange sw_ver hw_ver ad_ver com_type pos_confidence time_sync gnss_type user_data
      → let m =
          new_inh version timestamp ctrl vehicle_id sw_ver hw_ver ad_ver com_type pos_confidence
            time_sync gnss_type user_data in
        sent stack room raw handler s m
        ≡ ok (some (inh (InhCodec.as_read m)), notify handler (inh (InhCodec.as_read m)) s)
  sent-new_inh version timestamp ctrl vehicle_id sw_ver hw_ver ad_ver com_type pos_confidence
        time_sync gnss_type user_data r t =
      unpack-pack_inh stack room raw handler s
        (announced version timestamp ctrl vehicle_id sw_ver hw_ver ad_ver com_type pos_confidence
          time_sync gnss_type user_data r t)
        (announced-IsValid version timestamp ctrl vehicle_id sw_ver hw_ver ad_ver com_type
          pos_confidence time_sync gnss_type user_data r t)
        (announced-SameLengths version timestamp ctrl vehicle_id sw_ver hw_ver ad_ver com_type
          pos_confidence time_sync gnss_type user_data r t)
        (announced-IsFramed version timestamp ctrl vehicle_id sw_ver hw_ver ad_ver com_type
          pos_confidence time_sync gnss_type user_data r t)
