-- ===== src/Controller/Channel/Drain.antt =====
-- The send thread, left to itself, sends what is in the queue.
use csae.Prelude.{
  ◌≡◌, refl, ap, ◌∙◌, false, some, List, [], ◌∷◌, ◌++◌, append-nil, append_assoc, map,
}
use csae.Packer.{MessageBuffer}
use csae.Util.BlockQueue.{put}
use csae.Controller.Channel.{
  Item, checking, waiting, Channel, started, Event, enqueue, sender, step, run,
}

pub run-append :
    (first second : List Event) (c : Channel) → run (first ++ second) c ≡ run second (run first c)
unfolding run
run-append [] second c = refl
run-append (e ∷ first) second c = run-append first second (step e c)

-- Four steps for each message, and two to find the queue empty.
abbrev pub rounds : List MessageBuffer → List Event
rounds [] = sender ∷ sender ∷ []
rounds (p ∷ messages) = sender ∷ sender ∷ sender ∷ sender ∷ rounds messages

abbrev pub enqueue_all : List MessageBuffer → List Event
enqueue_all messages = map (λ p. enqueue (some p)) messages

-- From the loop's test, with these messages in the queue and others on the wire.
abbrev at_test : List MessageBuffer → List MessageBuffer → Channel
at_test messages wire = record {
  stopped = false;
  queue = map some messages;
  phase = checking;
  wire = wire;
}

abbrev pub drained : List MessageBuffer → Channel
drained wire = record { stopped = false; queue = []; phase = waiting; wire = wire }

run-rounds :
    (messages wire : List MessageBuffer)
    → run (rounds messages) (at_test messages wire) ≡ drained (wire ++ messages)
unfolding run
run-rounds [] wire = rw append-nil
run-rounds (p ∷ messages) wire = run-rounds messages (wire ++ (p ∷ [])) ∙ rw append_assoc

run-enqueue_all :
    (messages : List MessageBuffer) (queue : List Item)
    → run (enqueue_all messages) (record started { queue = queue })
      ≡ record started { queue = queue ++ map some messages }
unfolding run put
run-enqueue_all [] queue = rw append-nil
run-enqueue_all (p ∷ messages) queue =
    run-enqueue_all messages (queue ++ (some p ∷ [])) ∙ rw append_assoc

-- After any number of buffers was put in the queue of a channel that has just started, four steps
-- of the send thread for each and two more send all of them in order, and leave the queue empty and
-- the thread waiting.
pub run-drains :
    (messages : List MessageBuffer)
    → run (enqueue_all messages ++ rounds messages) started ≡ drained messages
run-drains messages =
    run-append (enqueue_all messages) (rounds messages) started
    ∙ ap (run (rounds messages)) (run-enqueue_all messages [])
    ∙ run-rounds messages []
