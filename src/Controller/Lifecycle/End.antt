-- ===== src/Controller/Lifecycle/End.antt =====
-- `stop` of both channels, which the destructor calls too.
use csae.Prelude.{
  ◌≡◌, refl, ap, ◌∙◌, true, false, not, sym, List, [], ◌∷◌, ◌++◌, Bool-cases, inl, inr, ok, bind,
  if◌then◌else◌,
}
use mathlib.Core.Path.{subst}
use csae.Util.Socket.{
  ConnectState, closed, connected, lost, Client, deleted_timer, shut_down, closed_socket, close,
}
use csae.Util.Timer
use csae.Controller.Lifecycle.{
  Link, Controller, Deed, kernel, set_stopped, joined_recv, notified, joined_send, Stopping,
  up_channel, down_channel, stop_link, stop_heartbeat, stop_channel, stop,
}
use csae.Controller.Lifecycle.Threads.{IsWhole, Ends, ended, stop_link-ended}

-- What is given up of a client: its timer and its socket, unless it counts as closed.
abbrev pub released : ConnectState → Client → List Deed
released closed c = []
released connected c =
    kernel (deleted_timer c.timer)
    ∷ kernel (shut_down c.sockfd)
    ∷ kernel (closed_socket c.sockfd)
    ∷ []
released lost c =
    kernel (deleted_timer c.timer)
    ∷ kernel (shut_down c.sockfd)
    ∷ kernel (closed_socket c.sockfd)
    ∷ []

-- What is done, in order, to end a channel that runs: the flag, a join of the receive thread, the
-- wake-up of the send thread, its join, and then the socket.
abbrev pub ending : Client → List Deed
ending c = set_stopped true ∷ joined_recv ∷ notified ∷ joined_send ∷ released c.state c

-- From `l` to `l'`: stopped, with no thread left, and ended, if it ran.
pub record IsEnded (l l' : Link) : Type 0 where
  pub is_stopped : l'.stopped ≡ true
  pub no_recv : l'.recv_thread ≡ false
  pub no_send : l'.send_thread ≡ false
  pub deeds_are : l'.deeds ≡ (if l.stopped then l.deeds else l.deeds ++ ending l.client)
  pub state_is : l'.client.state ≡ (if l.stopped then l.client.state else closed)

whole-IsEnded : (l : Link) → IsWhole l → l.stopped ≡ true → IsEnded l l
whole-IsEnded l w s = record {
  is_stopped = s;
  no_recv = w.recv_is ∙ ap not s;
  no_send = w.send_is ∙ ap not s;
  deeds_are = rw s refl;
  state_is = rw s refl;
}

closed_deeds :
    (state : ConnectState) (l : Link)
    → l.client.state ≡ state
    → ((ended l).deeds ≡ l.deeds ++ ending l.client) × ((ended l).client.state ≡ closed)
unfolding close
closed_deeds closed l e = rw e (refl, refl)
closed_deeds connected l e = rw e (refl, refl)
closed_deeds lost l e = rw e (refl, refl)

ended-IsEnded : (l : Link) → l.stopped ≡ false → IsEnded l (ended l)
ended-IsEnded l s = record {
  is_stopped = refl;
  no_recv = refl;
  no_send = refl;
  deeds_are = rw s (closed_deeds l.client.state l refl).0;
  state_is = rw s (closed_deeds l.client.state l refl).1;
}

module _ {S : Type 0} where
  stop_up :
      (t : Stopping) (c : Controller S)
      → Ends t
      → IsWhole c.up
      → (l : Link) × (stop_channel up_channel t c ≡ ok (record c { up = l })) × IsEnded c.up l
  unfolding stop_channel
  stop_up t c j w = elim (Bool-cases c.up.stopped) [
    | inl s ↦ (c.up, unfold stop_link in rw s, whole-IsEnded c.up w s)
    | inr s ↦ (ended c.up, rw (stop_link-ended t c.up j w s), ended-IsEnded c.up s)
  ]

  stop_down :
      (t : Stopping) (c : Controller S)
      → Ends t
      → IsWhole c.down
      → (c' : Controller S) × (stop_channel down_channel t c ≡ ok c')
        × IsEnded c.down c'.down
        × (c'.up ≡ c.up)
        × (c'.heartbeat
            ≡ (if c.down.stopped then c.heartbeat else (Timer.stop t.timer c.heartbeat c.timers).0))
  unfolding stop_channel
  stop_down t c j w = elim (Bool-cases c.down.stopped) [
    | inl s ↦ (c, rw s, whole-IsEnded c.down w s, refl, rw s refl)
    | inr s ↦ (
      record (stop_heartbeat t.timer c) { down = ended c.down },
      rw (stop_link-ended t c.down j w s, s),
      ended-IsEnded c.down s,
      refl,
      rw s refl,
    )
  ]

  stop_channel-ended :
      (t u : Stopping) (c : Controller S)
      → c.up.stopped ≡ true
      → c.down.stopped ≡ true
      → stop t u c ≡ ok c
  unfolding stop stop_channel stop_link
  stop_channel-ended t u c s d = rw (s, d)

  -- Over a controller both of whose channels have their two threads exactly while they are not
  -- stopped, `stop` returns if the threads end, the send threads behind their `notify`, and leaves
  -- both channels stopped and without threads: for one that ran the flag was set, the receive thread
  -- joined, the queue notified, the send thread joined, and then, unless its client still counted as
  -- closed, the timer deleted and the socket shut down and closed, and nothing else done. The
  -- heartbeat is stopped if the down channel ran, and a second `stop` changes nothing.
  pub stop-IsEnded :
      (t u : Stopping) (c : Controller S)
      → Ends t
      → Ends u
      → IsWhole c.up
      → IsWhole c.down
      → (c' : Controller S) × (stop t u c ≡ ok c')
        × IsEnded c.up c'.up
        × IsEnded c.down c'.down
        × (c'.heartbeat
            ≡ (if c.down.stopped then c.heartbeat else (Timer.stop u.timer c.heartbeat c.timers).0))
        × (stop t u c' ≡ ok c')
  unfolding stop
  stop-IsEnded t u c j k up_whole down_whole =
      let (l, e, up) = stop_up t c j up_whole in
      let (c', e', down, same, beat) = stop_down u (record c { up = l }) k down_whole in
      let up' = subst (λ x. IsEnded c.up x) (sym same) up in
      (
        c',
        ap (λ r. bind r (λ c''. stop_channel down_channel u c'')) e ∙ e',
        up',
        down,
        beat,
        stop_channel-ended t u c' up'.is_stopped down.is_stopped,
      )
