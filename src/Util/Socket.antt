-- ===== src/Util/Socket.antt =====
-- include/util/socketlib.h and src/util/socketlib.cc: a TCP client whose timer looks at the
-- connection. The kernel's answers to the calls are arguments; the calls that make or give up
-- something are logged. `recv` and `send` pass the kernel's result on and change nothing.
pub mod States
pub mod Close
use csae.Prelude.{
  ℕ, zero, suc, ◌+◌, ◌-◌, ◌^◌, ◌/◌, ◌%◌, ◌<◌, Bool, true, false, not, ◌&&◌, Option, none, some,
  List, [], ◌∷◌, ◌++◌, length, ltb, leb, ◌==◌, if◌then◌else◌, Run, ok, fault,
}

pub data ConnectState : Type 0 where
  closed : ConnectState
  connected : ConnectState
  lost : ConnectState

abbrev pub same_state : ConnectState → ConnectState → Bool
same_state closed closed = true
same_state connected connected = true
same_state lost lost = true
same_state a b = false

-- `has_callback` is `nullptr != callback_`. File descriptors and timers are numbers.
pub record Client : Type 0 where
  pub endpoint : List ℕ  -- char[64]
  pub sockfd : Option ℕ  -- none for -1
  pub state : ConnectState
  pub timer : ℕ
  pub has_callback : Bool

-- What the calls in `open` return, in their order: `some` is the descriptor or the timer, `true`
-- the result that the code goes on with.
pub record Answers : Type 0 where
  pub socket : Option ℕ
  pub inet_pton : Bool
  pub connect : Bool
  pub timer_create : Option ℕ
  pub timer_settime : Bool

pub data Call : Type 0 where
  made_socket : ℕ → Call
  set_nonblock : Option ℕ → Call
  made_timer : ℕ → Call
  deleted_timer : ℕ → Call
  shut_down : Option ℕ → Call
  closed_socket : Option ℕ → Call

-- The digits of a number below 2^32; `fuel` of ten is enough for them.
abbrev pub decimal : ℕ → ℕ → List ℕ
decimal zero n = []
decimal (suc fuel) n = (if ltb n 10 then [] else decimal fuel (n / 10)) ++ ((48 + n % 10) ∷ [])

-- "%d" of a `uint32_t`, which is read as an int: from 2^31 on it has a sign.
unfoldable pub port_text : ℕ → List ℕ
port_text port = if ltb port (2 ^ 31) then decimal 10 port else 45 ∷ decimal 10 (2 ^ 32 - port)

unfoldable pub set_connect_state_callback : Bool → Client → Client
set_connect_state_callback some_callback c = record c { has_callback = some_callback }

-- `open` behind the call of `socket`. The result is `true` for 0 and `false` for -1.
unfoldable pub open_socket : Bool → Answers → ℕ → Client → Client × Bool × List Call
open_socket block a fd c =
    let made =
      if block then made_socket fd ∷ [] else made_socket fd ∷ set_nonblock (some fd) ∷ [] in
    if not a.inet_pton
    then (c, false, made_socket fd ∷ [])
    else if not a.connect
    then (c, false, made_socket fd ∷ [])
    else elim a.timer_create [
      | none ↦ (c, false, made)
      | some id ↦ (record c { timer = id }, a.timer_settime, made ++ (made_timer id ∷ []))
    ]

-- `Client::open`: sprintf(endpoint_, "%s:%d", _addr, _port) writes past the array if the text is too long.
unfoldable pub open_client : List ℕ → ℕ → Bool → Answers → Client → Run (Client × Bool × List Call)
unfolding open_socket port_text
open_client addr port block a c =
    let text = addr ++ (58 ∷ port_text port) in
    let named = record c { endpoint = text } in
    if ltb (length text) 64
    then ok (elim a.socket [
      | none ↦ (record named { sockfd = none }, false, [])
      | some fd ↦ open_socket block a fd (record named { sockfd = some fd })
    ])
    else fault

-- An error of a call is logged, and `close` goes on.
unfoldable pub close : Client → Client × List Call
close c = if same_state c.state closed then (c, []) else (
  record c { state = closed },
  deleted_timer c.timer ∷ shut_down c.sockfd ∷ closed_socket c.sockfd ∷ [],
)

-- info.tcpi_state against TCP_ESTABLISHED and TCP_CLOSING; `none` where `listen` returns.
unfoldable pub observe : ℕ → ConnectState → Option ConnectState
observe tcp_state state =
    if leb tcp_state 11
    then (if tcp_state == 1 then some connected else some lost)
    else if same_state state closed
    then some connected
    else none

-- `if (state != state_ && nullptr != callback_)`. The second result is the state that the callback
-- is called with, if it is; the call is the last thing that `listen` does.
unfoldable pub change_state : ConnectState → Client → Client × Option ConnectState
change_state state c =
    if not (same_state state c.state) && c.has_callback
    then (record c { state = state }, some state)
    else (c, none)

unfoldable pub listen : ℕ → Client → Client × Option ConnectState
unfolding observe change_state
listen tcp_state c = elim (observe tcp_state c.state) [
  | none ↦ (c, none)
  | some state ↦ change_state state c
]
