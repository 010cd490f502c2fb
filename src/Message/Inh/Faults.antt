-- ===== src/Message/Inh/Faults.antt =====
-- Where VEH2CLOUD_INH is not written as it should be.
use csae.Prelude.{
  ℕ, ◌+◌, ◌^◌, ◌≤◌, ◌<◌, ◌≡◌, ◌⊎◌, inl, inr, Bool, some, List, arith, leb, if◌then◌else◌, Run, ok,
  fault,
}
use csae.Prelude
use csae.Memory.Write.{splice}
use csae.Memory.Write.Laws.{Stops, first-Stops, then-Stops}
use csae.Memory.Buffer.Laws.{put_behind-short, put_behind-Stops}
use csae.Memory.Text.Laws.{put_text-Stops}
use csae.Message.Header.{sizeof_header}
use csae.Message.Header.Codec
use csae.Message.Inh.{Veh2CloudInh, length, put_fields, to_bytes}

-- Room for the header and not for `length()`: the header alone is written.
pub to_bytes-short_inh :
    (m : Veh2CloudInh) (buf : List ℕ) (size : ℕ) (be : Bool)
    → sizeof_header ≤ size
    → size < length m
    → length m < 2 ^ 64
    → to_bytes m (some buf) size be ≡ (
        if leb (Prelude.length (Codec.encode m.header be)) (Prelude.length buf)
        then ok (
          some (splice 0 (Codec.encode m.header be) buf),
          Prelude.length (Codec.encode m.header be),
        )
        else fault)
unfolding to_bytes
to_bytes-short_inh m buf size be le over lt =
    let size_ok : Prelude.length (Codec.encode m.header be) ≡ sizeof_header =
      Codec.length-encode m.header be in
    rw (Codec.to_bytes_lem m.header buf size be le) (
      put_behind-short (put_fields m) buf size _ (Codec.put_fields-Writes m.header be) (omega arith)
        (omega arith) (omega arith))

-- The length byte of one of the two later versions passes the NUL of `sw_ver`.
abbrev pub Overreads : Veh2CloudInh → ℕ → Type 0
Overreads m len = (Prelude.length m.sw_ver + 1 < len) × (len < 255)

put_fields-Stops :
    (m : Veh2CloudInh) → Overreads m m.hw_ver_len ⊎ Overreads m m.ad_ver_len → Stops (put_fields m)
unfolding put_fields
put_fields-Stops m (inl (over, short)) = then-Stops _ (
    then-Stops _ (
      then-Stops _
        (then-Stops _ (first-Stops _ (put_text-Stops m.hw_ver_len m.sw_ver over short)))))
put_fields-Stops m (inr (over, short)) = then-Stops _ (
    then-Stops _ (
      then-Stops _ (
        then-Stops _ (
          then-Stops _
            (then-Stops _ (first-Stops _ (put_text-Stops m.ad_ver_len m.sw_ver over short)))))))

-- The hardware's, or the driving system's, version is copied out of the software's version, and a
-- longer one is read past its end.
pub to_bytes-overread_inh :
    (m : Veh2CloudInh) (buf : List ℕ) (size : ℕ) (be : Bool)
    → Overreads m m.hw_ver_len ⊎ Overreads m m.ad_ver_len
    → length m ≤ size
    → size < 2 ^ 64
    → to_bytes m (some buf) size be ≡ fault
unfolding to_bytes
to_bytes-overread_inh m buf size be over le lt =
    let size_ok : Prelude.length (Codec.encode m.header be) ≡ sizeof_header =
      Codec.length-encode m.header be in
    rw (Codec.to_bytes_lem m.header buf size be (omega arith)) (
      put_behind-Stops buf size _ (Codec.put_fields-Writes m.header be) (put_fields-Stops m over)
        (omega arith) lt)
