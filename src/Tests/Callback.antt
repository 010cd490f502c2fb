-- ===== src/Tests/Callback.antt =====
-- The callback of examples/main.cc on concrete calls.
use csae.Prelude.{◌+◌, ◌≡◌, ◌≤◌, refl, true, some, none, List, [], ◌∷◌, ◌++◌, map, arith, ltb}
use Prim.Native.Nat.{min}
use csae.Util.Timer
use csae.Util.Timer.{Timer, Kernel}
use csae.Example.{ControllerCallback, new_callback, destroy}
use csae.Example.Timers.{
  Event, connect, disconnect, answered, inh_due, state_due, run, IsGranted, run-destroy,
}
use csae.Example.Silence.{
  Tick, inh_tick, state_tick, event, inh_ticks, announcements, connect-announces, connect-silent,
}
use csae.Tests.Handshake.{inh_res_sample}

abbrev granted : Timer.Answers
granted = record { created = some 7; armed = true; deleted = true }

granted-IsGranted : IsGranted granted
granted-IsGranted = record { id = 7; created = refl; armed = refl; deleted = refl }

abbrev idle : Timer
idle = record { stopped = true; timer = 0; handler = 0 }

-- The kernel has two timers of others.
abbrev kernel : Kernel
kernel = record { live = 2; armed = none }

abbrev begun : ControllerCallback
begun = record { state_timer = idle; inh_timer = idle; inh_count = 0; kernel = kernel; sent = [] }

-- Announced twice, answered, reported, lost and connected again.
abbrev calls : List Event
calls =
    connect granted granted
    ∷ inh_due 1 granted granted
    ∷ inh_due 2 granted granted
    ∷ answered granted inh_res_sample
    ∷ state_due 3
    ∷ disconnect granted granted
    ∷ connect granted granted
    ∷ inh_due 4 granted granted
    ∷ []

run-destroy_example :
    let c = run calls (new_callback idle idle kernel) in
    (c.inh_count ≤ 3) × (c.kernel.live ≤ 4) × ((destroy granted granted c).kernel.live ≡ 2)
run-destroy_example =
    run-destroy idle idle kernel calls granted granted
      (
        refl,
        (granted-IsGranted, granted-IsGranted),
        (
          (granted-IsGranted, granted-IsGranted),
          (
            (granted-IsGranted, granted-IsGranted),
            (
              granted-IsGranted,
              (
                tt,
                (
                  (granted-IsGranted, granted-IsGranted),
                  (
                    refl,
                    (granted-IsGranted, granted-IsGranted),
                    ((granted-IsGranted, granted-IsGranted), tt),
                  ),
                ),
              ),
            ),
          ),
        ),
      )
      granted-IsGranted granted-IsGranted

abbrev ticks : List Tick
ticks =
    inh_tick 1 granted granted
    ∷ inh_tick 2 granted granted
    ∷ state_tick 3
    ∷ inh_tick 3 granted granted
    ∷ inh_tick 4 granted granted
    ∷ []

abbrev later : List Tick
later = inh_tick 5 granted granted ∷ state_tick 6 ∷ []

connect-announces_example :
    let d = run (connect granted granted ∷ map event ticks) begun in
    (announcements d.sent ≡ announcements [] + min 3 (inh_ticks ticks))
    × (d.inh_timer.stopped ≡ ltb 3 (inh_ticks ticks))
    × (d.state_timer.stopped ≡ ltb 3 (inh_ticks ticks))
connect-announces_example =
    connect-announces granted granted begun granted-IsGranted granted-IsGranted refl refl refl ticks

connect-silent_example :
    run (connect granted granted ∷ map event (ticks ++ later)) begun
    ≡ run (connect granted granted ∷ map event ticks) begun
connect-silent_example =
    connect-silent granted granted begun granted-IsGranted granted-IsGranted refl refl refl ticks
      later (omega arith)

-- Three announcements were sent.
run_count : announcements (run (connect granted granted ∷ map event ticks) begun).sent ≡ 3
unfolding run announcements Timer.start
run_count = refl
