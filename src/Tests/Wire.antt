-- ===== src/Tests/Wire.antt =====
-- The wire formats' theorems at concrete messages.
use csae.Prelude.{
  ℕ, ◌≤◌, ◌≡◌, refl, true, some, List, [], ◌∷◌, ◌++◌, arith, length, leb, replicate, if◌then◌else◌,
  Run, ok, fault,
}
use csae.Memory.Write.{splice}
use csae.Memory.Buffer.{Buffer}
use csae.Message.Inh
use csae.Message.Inh.Codec as InhCodec
use csae.Message.Inh.Format as InhFormat
use csae.Message.InhRes
use csae.Message.State
use csae.Message.State.Codec as StateCodec
use csae.Message.State.Decode as StateDecode
use csae.Message.State2
use csae.Message.State2.Codec as State2Codec
use csae.Message.State2.Decode as State2Decode
use csae.Tests.Handshake.{inh_header, inh_sample, inh_sample-IsValid, inh_res_sample}
use csae.Tests.States.{state_sample, route_sample, route_sample-IsValid}
use csae.Tests.States2.{state2_sample, state2_sample-IsValid, wheels_sample, wheels_sample-IsValid}

-- A buffer with room for each of them.
abbrev space : List ℕ
space = replicate 256 0

-- What a writer leaves that puts `bs` at the start of `space`.
abbrev written : List ℕ → Run (Buffer × ℕ)
written bs =
    if leb (length bs) (length space) then ok (some (splice 0 bs space), length bs) else fault

to_bytes-wire_format_example :
    Inh.to_bytes inh_sample (some space) 256 true
    ≡ written (InhFormat.wire_format (InhCodec.as_read inh_sample) true)
to_bytes-wire_format_example =
    InhFormat.to_bytes-wire_format inh_sample space 256 true inh_sample-IsValid
      (record { hw_same = refl; ad_same = refl }) (omega arith) (omega arith)

abbrev raw_res : InhRes.Cloud2VehInhRes
raw_res = record inh_res_sample { header = inh_header; vehicle_id = []; res = 9 }

to_bytes-encode_state_example :
    State.to_bytes route_sample (some space) 256 true
    ≡ written (StateCodec.encode route_sample true)
to_bytes-encode_state_example =
    StateCodec.to_bytes-encode_state route_sample space 256 true route_sample-IsValid (omega arith)
      (omega arith)

from_bytes-encode_state_example :
    State.from_bytes
      (State.default_state state_sample)
      (some (StateCodec.encode route_sample true ++ (7 ∷ [])))
      114
      true
    ≡ ok (route_sample, length (StateCodec.encode route_sample true))
from_bytes-encode_state_example =
    StateDecode.from_bytes-encode_state route_sample state_sample (7 ∷ []) 114 true
      route_sample-IsValid (omega arith) (omega arith)

to_bytes-encode_state2_example :
    State2.to_bytes wheels_sample (some space) 256 true
    ≡ written (State2Codec.encode wheels_sample true)
to_bytes-encode_state2_example =
    State2Codec.to_bytes-encode_state2 wheels_sample space 256 true wheels_sample-IsValid
      (omega arith) (omega arith)

from_bytes-encode_state2_example :
    State2.from_bytes
      (State2.default_state2 wheels_sample)
      (some (State2Codec.encode state2_sample true ++ []))
      144
      true
    ≡ ok (state2_sample, length (State2Codec.encode state2_sample true))
from_bytes-encode_state2_example =
    State2Decode.from_bytes-encode_state2 state2_sample wheels_sample [] 144 true
      state2_sample-IsValid refl state2_size (omega arith)
  where
    state2_size : length (State2Codec.encode state2_sample true) ≤ 144
    state2_size =
        rw (State2Codec.length-encode state2_sample true state2_sample-IsValid) (omega arith)
