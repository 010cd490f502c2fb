-- ===== src/Controller/Channel/Stuck.antt =====
-- A null pointer in the queue.
use csae.Prelude.{◌≡◌, refl, Bool, true, false, none, some, List, [], ◌∷◌, ◌++◌}
use csae.Packer.{MessageBuffer}
use csae.Util.BlockQueue.{put, take, take_woken}
use csae.Controller.Channel.{
  Item, Phase, checking, taking, waiting, woken, holding, sending, returned, crashed, Channel,
  check, wake, take_first, take_front, Event, enqueue, set_stopped, notify, spurious, sender,
  send_step, step, run,
}

-- The send thread holds no message.
abbrev pub HoldsNone : Phase → Type 0
HoldsNone (holding (some p)) = ⊥
HoldsNone (sending p) = ⊥
HoldsNone _ = Unit {0}

check-HoldsNone : (stopped : Bool) → HoldsNone (check stopped)
check-HoldsNone true = tt
check-HoldsNone false = tt

wake-HoldsNone : (phase : Phase) → HoldsNone phase → HoldsNone (wake phase)
wake-HoldsNone checking h = tt
wake-HoldsNone taking h = tt
wake-HoldsNone waiting h = tt
wake-HoldsNone woken h = tt
wake-HoldsNone (holding none) h = tt
wake-HoldsNone (holding (some p)) h = h
wake-HoldsNone (sending p) h = h
wake-HoldsNone returned h = tt
wake-HoldsNone crashed h = tt

-- At the front of the queue.
abbrev IsNull : List Item → Type 0
IsNull queue = (rest : List Item) × (queue ≡ none ∷ rest)

take-HoldsNone : (queue : List Item) → IsNull queue → HoldsNone (take_first (take queue))
unfolding take
take-HoldsNone [] n = tt
take-HoldsNone (none ∷ queue) n = tt
take-HoldsNone (some p ∷ queue) (rest, e) = cc

take_woken-HoldsNone :
    (queue : List Item) → IsNull queue → HoldsNone (take_front (take_woken queue))
unfolding take_woken
take_woken-HoldsNone [] n = tt
take_woken-HoldsNone (none ∷ queue) n = tt
take_woken-HoldsNone (some p ∷ queue) (rest, e) = cc

-- Behind the null pointer nothing moves.
record IsStuck (wire : List MessageBuffer) (c : Channel) : Type 0 where
  null : IsNull c.queue
  holds : HoldsNone c.phase
  same : c.wire ≡ wire

send_step-IsStuck :
    (phase : Phase) (wire : List MessageBuffer) (c : Channel)
    → IsNull c.queue
    → HoldsNone phase
    → c.wire ≡ wire
    → IsStuck wire (send_step phase c)
unfolding send_step
send_step-IsStuck checking wire c n h e = record {
  null = n;
  holds = check-HoldsNone c.stopped;
  same = e;
}
send_step-IsStuck taking wire c n h e = record {
  null = n;
  holds = take-HoldsNone c.queue n;
  same = e;
}
send_step-IsStuck waiting wire c n h e = record { null = n; holds = tt; same = e }
send_step-IsStuck woken wire c n h e = record {
  null = n;
  holds = take_woken-HoldsNone c.queue n;
  same = e;
}
send_step-IsStuck (holding none) wire c n h e = record { null = n; holds = tt; same = e }
send_step-IsStuck (holding (some p)) wire c n h e = elim h [ ]
send_step-IsStuck (sending p) wire c n h e = elim h [ ]
send_step-IsStuck returned wire c n h e = record { null = n; holds = tt; same = e }
send_step-IsStuck crashed wire c n h e = record { null = n; holds = tt; same = e }

put-IsNull : (p : Item) (queue : List Item) → IsNull queue → IsNull (put p queue)
unfolding put
put-IsNull p queue (rest, e) = (rest ++ (p ∷ []), rw e)

step-IsStuck :
    (e : Event) (wire : List MessageBuffer) (c : Channel) → IsStuck wire c → IsStuck wire (step e c)
unfolding step
step-IsStuck (enqueue p) wire c s = record {
  null = put-IsNull p c.queue s.null;
  holds = wake-HoldsNone c.phase s.holds;
  same = s.same;
}
step-IsStuck set_stopped wire c s = record { null = s.null; holds = s.holds; same = s.same }
step-IsStuck notify wire c s = record {
  null = s.null;
  holds = wake-HoldsNone c.phase s.holds;
  same = s.same;
}
step-IsStuck spurious wire c s = record {
  null = s.null;
  holds = wake-HoldsNone c.phase s.holds;
  same = s.same;
}
step-IsStuck sender wire c s = send_step-IsStuck c.phase wire c s.null s.holds s.same

run-IsStuck :
    (events : List Event) (wire : List MessageBuffer) (c : Channel)
    → IsStuck wire c
    → IsStuck wire (run events c)
unfolding run
run-IsStuck [] wire c s = s
run-IsStuck (e ∷ events) wire c s = run-IsStuck events wire (step e c) (step-IsStuck e wire c s)

-- Once a null pointer is at the front of the queue and the send thread holds no message, nothing
-- more is sent, whatever the threads do.
pub run-null :
    (events : List Event) (c : Channel) (rest : List Item)
    → c.queue ≡ none ∷ rest
    → HoldsNone c.phase
    → (run events c).wire ≡ c.wire
run-null events c rest e h =
    (run-IsStuck events c.wire c (record { null = (rest, e); holds = h; same = refl })).same
