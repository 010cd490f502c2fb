-- ===== src/Packer/Print/Table.antt =====
-- The tables that the messages are printed as.
use csae.Prelude.{ℕ, ◌<◌, true, List, [], ◌++◌, All, arith}
use csae.Memory.Word.{IsByte}
use csae.Message.Print.Laws.{IsTable}
use csae.Message.Header.Codec as HeaderCodec
use csae.Message.Header.Print.Table as HeaderTable
use csae.Message.Inh.{Veh2CloudInh}
use csae.Message.Inh.Codec as InhCodec
use csae.Message.Inh.Format as InhFormat
use csae.Message.Inh.Print.Table as InhTable
use csae.Message.InhRes.Print.Table as InhResTable
use csae.Message.State.Print.Table as StateTable
use csae.Packer.{AnyMessage, header, inh, inh_res, state, state2}
use csae.Packer.Sendable.{IsSendable, as_received, wire_of}
use csae.Packer.Print.{print_any}

-- A message of a class that the handler prints, whose texts fit the array of the print; the bytes of
-- a message id are bytes.
abbrev pub IsPrintable : AnyMessage → Type 0
IsPrintable (header m) = Unit {0}
IsPrintable (inh m) = (m.sw_ver_len < 128) × (m.user_data_len < 128)
IsPrintable (inh_res m) = Unit {0}
IsPrintable (state m) = All IsByte m.message_id
IsPrintable (state2 m) = ⊥

-- The bytes that the rows of a table show.
abbrev pub shown : AnyMessage → List ℕ
shown (header m) = wire_of (header m)
shown (inh m) = HeaderCodec.encode m.header true ++ InhFormat.fields_bytes m
shown (inh_res m) = wire_of (inh_res m)
shown (state m) = wire_of (state (StateTable.swapped m))
shown (state2 m) = []

as_read-IsValid :
    (m : Veh2CloudInh)
    → InhCodec.IsValid m
    → InhCodec.SameLengths m
    → InhCodec.IsValid (InhCodec.as_read m)
as_read-IsValid m v e = record {
  header_valid = v.header_valid;
  vehicle_id_size = v.vehicle_id_size;
  sw_ver_size = v.sw_ver_size;
  sw_ver_short = v.sw_ver_short;
  hw_ver_size = omega (arith, v.sw_ver_size, e.hw_same);
  hw_ver_short = v.hw_ver_short;
  ad_ver_size = omega (arith, v.sw_ver_size, e.ad_same);
  ad_ver_short = v.ad_ver_short;
  com_type_range = v.com_type_range;
  pos_confidence_range = v.pos_confidence_range;
  time_sync_range = v.time_sync_range;
  gnss_type_range = v.gnss_type_range;
  user_data_size = v.user_data_size;
  user_data_short = v.user_data_short;
}

pub print_any-IsTable :
    (os : List ℕ) (m : AnyMessage)
    → IsSendable m
    → IsPrintable m
    → IsTable (print_any os m) os (shown m)
unfolding print_any
print_any-IsTable os (header m) v p = HeaderTable.print-encode_header os m v.0
print_any-IsTable os (inh m) (v, e, f) p =
    InhTable.print-fields_bytes os m v p.0 (omega (arith, e.hw_same, p.0))
      (omega (arith, e.ad_same, p.0)) p.1
print_any-IsTable os (inh_res m) v p = InhResTable.print-encode_inh_res os m v.0
print_any-IsTable os (state m) v p = StateTable.print-encode_state os m v.0 p
print_any-IsTable os (state2 m) v p = elim p [ ]

pub received-IsSendable : (m : AnyMessage) → IsSendable m → IsSendable (as_received m)
received-IsSendable (inh m) (v, e, f) =
    (as_read-IsValid m v e, record { hw_same = e.hw_same; ad_same = e.ad_same }, f)
received-IsSendable (header m) v = v
received-IsSendable (inh_res m) v = v
received-IsSendable (state m) v = v
received-IsSendable (state2 m) v = v

pub received-IsPrintable : (m : AnyMessage) → IsPrintable m → IsPrintable (as_received m)
received-IsPrintable (inh m) p = p
received-IsPrintable (header m) p = p
received-IsPrintable (inh_res m) p = p
received-IsPrintable (state m) p = p
received-IsPrintable (state2 m) p = p
