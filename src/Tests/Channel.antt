-- ===== src/Tests/Channel.antt =====
-- A channel's queue and send thread, on concrete runs.
use csae.Prelude.{◌≡◌, ◌≢◌, refl, true, false, none, some, List, [], ◌∷◌, ◌++◌, map, replicate}
use csae.Packer.{MessageBuffer}
use csae.Controller.Channel.{
  Item, taking, waiting, crashed, started, Event, enqueue, set_stopped, notify, sender, run,
}
use csae.Controller.Channel.Fifo.{run-wire}
use csae.Controller.Channel.Drain.{rounds, enqueue_all, drained, run-drains}
use csae.Controller.Channel.Stop.{stop_events, run-stop, run-lost_wake_up, run-ne-crashed}
use csae.Controller.Channel.Stuck.{run-null}

abbrev one : MessageBuffer
one = record { size = 1; bytes = 1 ∷ [] }

abbrev two : MessageBuffer
two = record { size = 2; bytes = 2 ∷ 2 ∷ [] }

-- The thread waits, is woken, sends one message and is about to send the next one.
abbrev busy : List Event
busy =
    sender
    ∷ sender
    ∷ enqueue (some one)
    ∷ sender
    ∷ enqueue (some two)
    ∷ sender
    ∷ sender
    ∷ sender
    ∷ []

run-busy :
    run busy started
    ≡ record { stopped = false; queue = some two ∷ []; phase = taking; wire = one ∷ [] }
unfolding run
run-busy = refl

run-wire_example :
    (rest : List Item) × (some one ∷ some two ∷ [] ≡ map some (run busy started).wire ++ rest)
run-wire_example = run-wire busy

run-drains_example :
    run (enqueue_all (one ∷ two ∷ []) ++ rounds (one ∷ two ∷ [])) started ≡ drained (one ∷ two ∷ [])
run-drains_example = run-drains (one ∷ two ∷ [])

run-stop_example :
    run ((enqueue_all (one ∷ []) ++ rounds (one ∷ [])) ++ stop_events) started
    ≡ record { stopped = true; queue = []; phase = crashed; wire = one ∷ [] }
run-stop_example = run-stop (one ∷ [])

run-lost_wake_up_example :
    (run
      (set_stopped ∷ notify ∷ replicate 4 sender)
      (record { stopped = false; queue = []; phase = taking; wire = one ∷ [] })).phase
    ≡ waiting
run-lost_wake_up_example = run-lost_wake_up 3 (one ∷ [])

run-ne-crashed_example : (run busy started).phase ≢ crashed
run-ne-crashed_example = run-ne-crashed busy (tt, (tt, (tt, (tt, (tt, (tt, (tt, (tt, tt))))))))

run-null_example :
    (run busy (record started { queue = none ∷ some one ∷ []; wire = two ∷ [] })).wire ≡ two ∷ []
run-null_example =
    run-null busy (record started { queue = none ∷ some one ∷ []; wire = two ∷ [] }) (some one ∷ [])
      refl tt
