-- ===== src/Tests/Packets.antt =====
-- The packer's theorems at concrete messages.
use csae.Prelude.{
  ℕ, zero, suc, ◌≤◌, ◌≡◌, refl, ◌⊎◌, inl, true, some, List, [], ◌∷◌, arith, length, replicate,
  length-replicate, All, ok, fault, bind,
}
use csae.Memory.Word.{IsByte}
use csae.Memory.Read.{get_byte}
use csae.Message.Header
use csae.Message.Header.Codec as HeaderCodec
use csae.Message.Inh.{Veh2CloudInh}
use csae.Message.Inh.Codec as InhCodec
use csae.Packer.{
  notify, header, inh, header_message, inh_message, inh_res_message, state_message, state2_message,
  pack, unpack, unpack_type,
}
use csae.Packer.Sendable.{pack_any}
use csae.Packer.RoundTrip.{unpack-pack_any}
use csae.Packer.Overflow.{
  pack-state_overflow, pack-state2_overflow, pack-inh_truncated, pack-inh_overread,
}
use csae.Packer.Notify.{unpack-told, told}
use csae.Packer.Safety.{unpack-Returns, Returns, IsState2}
use csae.Tests.Handshake.{
  inh_header, heartbeat_header, inh_header-IsValid, inh_sample, inh_sample-IsValid, long_inh,
  long_inh-IsValid,
}
use csae.Tests.States.{route_sample, route_sample-IsValid}
use csae.Tests.States2.{wheels_sample, wheels_sample-IsValid}
use csae.Tests.Receiver.{raw_storage, last_called}

-- The array on the stack, with zeros in it.
abbrev stack : ℕ → List ℕ
stack n = replicate n 0

room : (n : ℕ) → length (stack n) ≡ n
room n = length-replicate n 0

unpack-pack_any_example :
    bind
      (pack_any stack (inh inh_sample))
      (λ p. unpack raw_storage (some p.bytes) p.size (some last_called) 0)
    ≡ ok (some (inh (InhCodec.as_read inh_sample)), 2)
unfolding notify
unpack-pack_any_example =
    unpack-pack_any stack room raw_storage (some last_called) 0 (inh inh_sample) (
      inh_sample-IsValid,
      record { hw_same = refl; ad_same = refl },
      record { id_is = refl; type_is = refl; len_is = refl },
    )

pack-state_overflow_example : pack stack route_sample ≡ fault
pack-state_overflow_example =
    pack-state_overflow stack room route_sample route_sample-IsValid refl (omega arith)

pack-state2_overflow_example : pack stack wheels_sample ≡ fault
pack-state2_overflow_example =
    pack-state2_overflow stack room wheels_sample wheels_sample-IsValid refl refl (omega arith)

pack-inh_overread_example : pack stack long_inh ≡ fault
pack-inh_overread_example =
    pack-inh_overread stack room long_inh long_inh-IsValid refl (inl (omega arith))

-- A text of 300 bytes, which the length byte does not count.
abbrev truncated_inh : Veh2CloudInh
truncated_inh = record inh_sample { user_data_len = 0; user_data = replicate 300 0x41 }

pack-inh_truncated_example :
    pack stack truncated_inh ≡ ok (record { size = 16; bytes = HeaderCodec.encode inh_header true })
pack-inh_truncated_example =
    pack-inh_truncated stack room truncated_inh inh_header-IsValid (omega arith) (omega arith)

-- A VEH2CLOUD_INH all of whose lengths are 254, in the controller's buffer of 4096 bytes.
abbrev hostile : List ℕ
hostile = 0xf2 ∷ 0 ∷ 0 ∷ 0 ∷ 0 ∷ 0x34 ∷ 1 ∷ replicate 4089 0xfe

replicate-IsByte : (n b : ℕ) → IsByte b → All IsByte (replicate n b)
replicate-IsByte zero b h = tt
replicate-IsByte (suc n) b h = (h, replicate-IsByte n b h)

hostile-IsByte : All IsByte hostile
hostile-IsByte = (
  omega arith,
  (
    omega arith,
    (
      omega arith,
      (
        omega arith,
        (omega arith, (omega arith, (omega arith, replicate-IsByte 4089 0xfe (omega arith)))),
      ),
    ),
  ),
)

hostile-long : 2138 ≤ length hostile
hostile-long = omega (arith, length-replicate {A = ℕ} 4089 0xfe)

unpack-Returns_example :
    Returns (unpack raw_storage (some hostile) 4096 (some last_called) 0) ⊎ IsState2 hostile
unpack-Returns_example =
    unpack-Returns hostile hostile-IsByte hostile-long raw_storage 4096 (some last_called) 0

-- A heartbeat, as it comes in.
abbrev heartbeat_bytes : List ℕ
heartbeat_bytes =
    0xf2 ∷ 0 ∷ 0 ∷ 0 ∷ 0 ∷ 0x0c ∷ 1 ∷ 0 ∷ 0 ∷ 1 ∷ 0x77 ∷ 0x5a ∷ 0x7b ∷ 0x2c ∷ 0 ∷ 28 ∷ []

unpack_run :
    unpack raw_storage (some heartbeat_bytes) 16 (some last_called) 0
    ≡ ok (some (header (record heartbeat_header { timestamp = 0x000001775a7b2c00 })), 1)
unfolding unpack notify get_byte unpack_type Header.from_bytes
unpack_run = refl

unpack-told_example :
    1
    ≡ told
        (some last_called)
        0
        (some (header (record heartbeat_header { timestamp = 0x000001775a7b2c00 })))
unpack-told_example =
    unpack-told (some last_called) 0 raw_storage (some heartbeat_bytes) 16
      (some (header (record heartbeat_header { timestamp = 0x000001775a7b2c00 }))) 1 unpack_run
