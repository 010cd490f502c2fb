-- ===== src/Util/Socket/Close.antt =====
-- What `close` gives up of what `open` has made.
use csae.Prelude.{
  ℕ, ◌≡◌, refl, ◌∙◌, Bool, true, false, Option, none, some, List, [], ◌∷◌, ◌++◌, arith, ok,
}
use csae.Util.Socket.{
  closed, connected, lost, Client, Answers, Call, made_socket, set_nonblock, made_timer,
  deleted_timer, shut_down, closed_socket, port_text, open_socket, open_client, close,
}

abbrev pub made : Bool → ℕ → ℕ → List Call
made true fd id = made_socket fd ∷ made_timer id ∷ []
made false fd id = made_socket fd ∷ set_nonblock (some fd) ∷ made_timer id ∷ []

abbrev pub given_up : ℕ → ℕ → List Call
given_up fd id = deleted_timer id ∷ shut_down (some fd) ∷ closed_socket (some fd) ∷ []

-- A client that `open` has returned 0 for.
pub record IsOpen (block : Bool) (fd id : ℕ) (before c : Client) (calls : List Call) : Type 0 where
  pub calls_are : calls ≡ made block fd id
  pub fd_is : c.sockfd ≡ some fd
  pub timer_is : c.timer ≡ id
  pub state_is : c.state ≡ before.state

open_socket-IsOpen :
    (block : Bool) (a : Answers) (timer_create : Option ℕ) (fd : ℕ) (c c' : Client)
    (calls : List Call)
    → a.timer_create ≡ timer_create
    → c.sockfd ≡ some fd
    → open_socket block a fd c ≡ (c', true, calls)
    → (id : ℕ) × IsOpen block fd id c c' calls
unfolding open_socket
open_socket-IsOpen block a none fd c c' calls t f e = absurd (ground arith)
open_socket-IsOpen true a (some id) fd c c' calls t f e = (id, ground arith)
open_socket-IsOpen false a (some id) fd c c' calls t f e = (id, ground arith)

open_client-IsOpen :
    (addr : List ℕ) (port : ℕ) (block : Bool) (a : Answers) (socket : Option ℕ) (c c' : Client)
    (calls : List Call)
    → a.socket ≡ socket
    → open_client addr port block a c ≡ ok (c', true, calls)
    → (fd : ℕ) × (id : ℕ) × IsOpen block fd id c c' calls
unfolding open_client
open_client-IsOpen addr port block a none c c' calls s e = absurd (ground arith)
open_client-IsOpen addr port block a (some fd) c c' calls s e =
    let named = record c { endpoint = addr ++ (58 ∷ port_text port); sockfd = some fd } in
    let (id, o) =
      open_socket-IsOpen block a a.timer_create fd named c' calls refl refl (ground arith) in
    (
      fd,
      id,
      record {
        calls_are = o.calls_are;
        fd_is = o.fd_is;
        timer_is = o.timer_is;
        state_is = o.state_is;
      },
    )

close-closed : (c : Client) → c.state ≡ closed → close c ≡ (c, [])
unfolding close
close-closed c e = rw e

-- A socket and a timer that were made, and what `close` does about them.
pub record IsReleased (block : Bool) (c : Client) (calls : List Call) : Type 0 where
  pub fd : ℕ
  pub id : ℕ
  pub made_both : calls ≡ made block fd id
  pub kept : close c ≡ (c, [])
  pub after_connected : (close (record c { state = connected })).1 ≡ given_up fd id
  pub after_lost : (close (record c { state = lost })).1 ≡ given_up fd id

-- If `open` returns 0 on a closed client, it has made a socket and a timer; `close` before the
-- first look of that timer gives up neither, and `close` on the same client with the state
-- CONNECTED or LOST gives up both.
pub close-open_client :
    (addr : List ℕ) (port : ℕ) (block : Bool) (a : Answers) (c c' : Client) (calls : List Call)
    → c.state ≡ closed
    → open_client addr port block a c ≡ ok (c', true, calls)
    → IsReleased block c' calls
unfolding close
close-open_client addr port block a c c' calls before e =
    let (fd, id, o) = open_client-IsOpen addr port block a a.socket c c' calls refl e in
    record {
      fd = fd;
      id = id;
      made_both = o.calls_are;
      kept = close-closed c' (o.state_is ∙ before);
      after_connected = rw (o.fd_is, o.timer_is);
      after_lost = rw (o.fd_is, o.timer_is);
    }
