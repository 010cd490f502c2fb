-- ===== src/Packer.antt =====
-- include/protocol/packer.h and src/protocol/packer.cc: a message to a buffer, and a received buffer
-- to a message and a call of the handler.
pub mod Pack
pub mod Front
pub mod Unpack
pub mod Encode
pub mod Sendable
pub mod Print
pub mod RoundTrip
pub mod Overflow
pub mod Safety
pub mod Notify
pub mod Constructed
use csae.Prelude.{
  ℕ, ◌+◌, ◌%◌, ◌^◌, Bool, true, not, ◌||◌, Option, none, some, List, length, take, ◌==◌, leb,
  if◌then◌else◌, Run, ok, fault, bind,
}
use csae.Memory.Read.{get_byte}
use csae.Memory.Buffer.{Buffer}
use csae.Message.Header
use csae.Message.Header.{
  MessageHeader, sizeof_header, default_init, veh2cloud_inh, cloud2veh_inh_res, veh2cloud_state,
  heartbeat, heartbeat_res,
}
use csae.Message.Inh
use csae.Message.Inh.{Veh2CloudInh, default_inh}
use csae.Message.InhRes
use csae.Message.InhRes.{Cloud2VehInhRes, default_inh_res}
use csae.Message.State
use csae.Message.State.{Veh2CloudState, default_state}
use csae.Message.State2
use csae.Message.State2.{Veh2CloudState2, default_state2}

-- `uint32_t size; uint8_t data[0];` with `size` bytes behind.
pub record MessageBuffer : Type 0 where
  pub size : ℕ
  pub bytes : List ℕ

-- What `pack<T>` asks of a type below `MessageHeader`. No function is virtual, so each `T` brings
-- its own.
pub record IsMessage (T : Type 0) : Type 0 where
  pub data_length : T → ℕ
  pub to_bytes : T → Buffer → ℕ → Bool → Run (Buffer × ℕ)

instance abbrev pub header_message : IsMessage MessageHeader
header_message = record { data_length = λ h. h.data_len; to_bytes = Header.to_bytes }

instance abbrev pub inh_message : IsMessage Veh2CloudInh
inh_message = record { data_length = λ m. m.header.data_len; to_bytes = Inh.to_bytes }

instance abbrev pub inh_res_message : IsMessage Cloud2VehInhRes
inh_res_message = record { data_length = λ m. m.header.data_len; to_bytes = InhRes.to_bytes }

instance abbrev pub state_message : IsMessage Veh2CloudState
state_message = record { data_length = λ m. m.header.data_len; to_bytes = State.to_bytes }

instance abbrev pub state2_message : IsMessage Veh2CloudState2
state2_message = record { data_length = λ m. m.state.header.data_len; to_bytes = State2.to_bytes }

-- v.insert(v.end(), buf, buf + size), and the copy of `v` into a new `MessageBuffer`.
unfoldable pub copy_out : Buffer → ℕ → Run MessageBuffer
copy_out none size = fault
copy_out (some buf) size =
    if leb size (length buf)
    then ok (record { size = size % 2 ^ 32; bytes = take size buf })
    else fault

-- `stack` gives the array `uint8_t buf[size]` as it is before `to_bytes` writes to it.
unfoldable pub pack : {T : Type 0} ⦃t : IsMessage T⦄ → (ℕ → List ℕ) → T → Run MessageBuffer
unfolding copy_out
pack ⦃t⦄ stack m =
    let size = sizeof_header + t.data_length m in
    bind (t.to_bytes m (some (stack size)) size true) (λ p. copy_out p.0 p.1)

-- A message of one of the five classes.
pub data AnyMessage : Type 0 where
  header : MessageHeader → AnyMessage
  inh : Veh2CloudInh → AnyMessage
  inh_res : Cloud2VehInhRes → AnyMessage
  state : Veh2CloudState → AnyMessage
  state2 : Veh2CloudState2 → AnyMessage

-- `Packer::Handler`, over the state `S` that its methods change.
pub record Handler (S : Type 0) : Type 0 where
  pub on_header : MessageHeader → S → S
  pub on_inh : Veh2CloudInh → S → S
  pub on_inh_res : Cloud2VehInhRes → S → S
  pub on_state : Veh2CloudState → S → S
  pub on_state2 : Veh2CloudState2 → S → S

-- `if (nullptr != _handler) _handler->on_message(*msg);`
unfoldable pub notify : {S : Type 0} → Option (Handler S) → AnyMessage → S → S
notify none m s = s
notify (some h) (header m) s = h.on_header m s
notify (some h) (inh m) s = h.on_inh m s
notify (some h) (inh_res m) s = h.on_inh_res m s
notify (some h) (state m) s = h.on_state m s
notify (some h) (state2 m) s = h.on_state2 m s

-- What the storage that `make_shared` obtains holds before a constructor runs.
pub record Storage : Type 0 where
  pub for_header : MessageHeader
  pub for_inh : Veh2CloudInh
  pub for_inh_res : Cloud2VehInhRes
  pub for_state : Veh2CloudState
  pub for_state2 : Veh2CloudState2

-- The message that the constructor made goes to the handler and to the caller.
abbrev pub deliver :
    {S A : Type 0}
    → Option (Handler S)
    → S
    → (A → AnyMessage)
    → Run (A × ℕ)
    → Run (Option AnyMessage × S)
deliver handler s wrap r = bind r (λ p. ok (some (wrap p.0), notify handler (wrap p.0) s))

-- The case VEH2CLOUD_STATE, by the version at offset 6; any other version falls to the default.
unfoldable pub unpack_state :
    {S : Type 0} → Storage → List ℕ → ℕ → Option (Handler S) → S → ℕ → Run (Option AnyMessage × S)
unpack_state raw buf size handler s version =
    if version == 0x01
    then deliver handler s state
        (State.from_bytes (default_state raw.for_state) (some buf) size true)
    else if version == 0x02
    then deliver handler s state2
        (State2.from_bytes (default_state2 raw.for_state2) (some buf) size true)
    else ok (none, s)

-- The `switch` over the data type at offset 5.
unfoldable pub unpack_type :
    {S : Type 0} → Storage → List ℕ → ℕ → Option (Handler S) → S → ℕ → Run (Option AnyMessage × S)
unpack_type raw buf size handler s data_type =
    if data_type == heartbeat || data_type == heartbeat_res
    then deliver handler s header
        (Header.from_bytes (default_init raw.for_header) (some buf) size true)
    else if data_type == veh2cloud_inh
    then deliver handler s inh (Inh.from_bytes (default_inh raw.for_inh) (some buf) size true)
    else if data_type == cloud2veh_inh_res
    then deliver handler s inh_res
        (InhRes.from_bytes (default_inh_res raw.for_inh_res) (some buf) size true)
    else if data_type == veh2cloud_state
    then bind (get_byte buf 6) (λ p. unpack_state raw buf size handler s p.0)
    else ok (none, s)

unfoldable pub unpack :
    {S : Type 0} → Storage → Buffer → ℕ → Option (Handler S) → S → Run (Option AnyMessage × S)
unpack raw none size handler s = ok (none, s)
unpack raw (some buf) size handler s =
    if size == 0
    then ok (none, s)
    else bind (get_byte buf 0) λ id.
      if not (id.0 == 0xf2)
      then ok (none, s)
      else bind (get_byte buf 5) (λ p. unpack_type raw buf size handler s p.0)
