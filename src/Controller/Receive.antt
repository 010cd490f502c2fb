-- ===== src/Controller/Receive.antt =====
-- src/controller.cc: one channel's receive thread, and the handler that it calls.
pub mod Safety
pub mod Heard
pub mod Exchange
use csae.Prelude.{
  ℕ, ◌≡◌, Bool, true, false, Option, none, some, List, [], ◌∷◌, ◌++◌, length, replicate, Run, ok,
  bind,
}
use csae.Memory.Write.{put_bytes}
use csae.Message.Header.{MessageHeader}
use csae.Message.Inh.{Veh2CloudInh}
use csae.Message.InhRes.{Cloud2VehInhRes}
use csae.Message.State.{Veh2CloudState}
use csae.Packer.{AnyMessage, header, inh, inh_res, state, state2, Handler, Storage, notify, unpack}
use csae.Packer.Print.{print_any}
use csae.Util.Socket.{ConnectState}

-- `Controller::Callback`, over the state `S` that its methods change.
pub record Callback (S : Type 0) : Type 0 where
  pub on_up_connect_state : ConnectState → S → S
  pub on_down_connect_state : ConnectState → S → S
  pub on_header : MessageHeader → S → S
  pub on_inh : Veh2CloudInh → S → S
  pub on_inh_res : Cloud2VehInhRes → S → S
  pub on_state : Veh2CloudState → S → S

-- `if (nullptr != callback_) callback_->…`
abbrev pub call : {S : Type 0} → Option (Callback S) → (Callback S → S → S) → S → S
call none method s = s
call (some c) method s = method c s

-- `std::cout << std::endl << _msg`, and then the callback, over what `std::cout` has got and the
-- callback's state. What printf and the logs write is left out.
unfoldable pub tell : {S : Type 0} → AnyMessage → (S → S) → Run (List ℕ × S) → Run (List ℕ × S)
unfolding print_any
tell m method r = bind r (λ p. bind (print_any (p.0 ++ (10 ∷ [])) m) (λ os. ok (os, method p.1)))

-- The `on_message` methods of `Controller`. It has none for `Veh2CloudState2`, and that of
-- `Packer::Handler` is empty.
unfoldable pub controller_handler : {S : Type 0} → Option (Callback S) → Handler (Run (List ℕ × S))
unfolding tell
controller_handler callback = record {
  on_header = λ m. tell (header m) (call callback (λ c. c.on_header m));
  on_inh = λ m. tell (inh m) (call callback (λ c. c.on_inh m));
  on_inh_res = λ m. tell (inh_res m) (call callback (λ c. c.on_inh_res m));
  on_state = λ m. tell (state m) (call callback (λ c. c.on_state m));
  on_state2 = λ m r. r;
}

-- What one call of `recv` gives: bytes at the start of `buf`, none of them after the peer has shut
-- down, or an error, which is EAGAIN, EWOULDBLOCK or EINTR if `retry`.
pub data Received : Type 0 where
  bytes : List ℕ → Received
  failed : Bool → Received

-- The loop, without _UDEBUG, so that print_buffer does nothing. The list ends where the test finds
-- the channel stopped. `raw` is the storage of the message that is made when so many calls of `recv`
-- follow.
unfoldable pub receive :
    {T : Type 0} → (ℕ → Storage) → Handler (Run T) → List Received → List ℕ → T → Run T
receive raw handler [] buf s = ok s
receive raw handler (bytes [] ∷ rest) buf s = ok s
receive raw handler (bytes (b ∷ bs) ∷ rest) buf s = bind (put_bytes (b ∷ bs) buf 0) (λ p.
    bind (unpack (raw (length rest)) (some p.0) (length (b ∷ bs)) (some handler) (ok s))
      (λ r. bind r.1 (λ s'. receive raw handler rest p.0 s')))
receive raw handler (failed true ∷ rest) buf s = receive raw handler rest buf s
receive raw handler (failed false ∷ rest) buf s = ok s

-- uint8_t buf[4096] = {0};
unfoldable pub socket_recv_thread :
    {S : Type 0}
    → (ℕ → Storage)
    → Option (Callback S)
    → List Received
    → List ℕ × S
    → Run (List ℕ × S)
unfolding receive controller_handler
socket_recv_thread raw callback received s =
    receive raw (controller_handler callback) received (replicate 4096 0) s
