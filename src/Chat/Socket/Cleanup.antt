-- ===== src/Chat/Socket/Cleanup.antt =====
-- What can no longer happen (`useChatWebSocket` of frontend/src/hooks/useChatData.ts).
use hunger_platform.Prelude.{◌≤◌, ◌≡◌, true, List, [], ◌∷◌, arith}
use hunger_platform.Chat.Socket.{State, Event, step, run, granted, refused, cleanup}

step_cancelled :
    (e : Event) (s : State)
    → s.cancelled ≡ true
    → ((step e s).cancelled ≡ true) × ((step e s).created ≡ s.created) × ((step e s).live ≤ s.live)
unfolding step
step_cancelled granted s h = ground arith
step_cancelled _ s h = ground arith

steps_cancelled :
    (es : List Event) (s : State)
    → s.cancelled ≡ true
    → ((run es s).created ≡ s.created) × ((run es s).live ≤ s.live)
unfolding run
steps_cancelled [] s h = ground arith
steps_cancelled (e ∷ es) s h = ground (arith, step_cancelled e s h, steps_cancelled es (step e s))

step_cleanup :
    (s : State)
    → ((step cleanup s).cancelled ≡ true)
      × ((step cleanup s).created ≡ s.created)
      × ((step cleanup s).live ≤ s.live)
unfolding step
step_cleanup s = ground arith

-- In whatever state the effect ends, no socket is made any more, whatever the browser calls then: not by
-- timers that were set, nor by a ticket that was asked for; and no more sockets are open than before.
pub run_cancelled :
    (es : List Event) (s : State)
    → ((run (cleanup ∷ es) s).created ≡ s.created) × ((run (cleanup ∷ es) s).live ≤ s.live)
unfolding run
run_cancelled es s =
    let ended = step_cleanup s in
    let after = steps_cancelled es (step cleanup s) ended.0 in ground arith

-- No socket, no timer and no call of `connect` are left.
pub record IsSilent (s : State) : Type 0 where
  pub no_error_timer : s.error_timers ≡ 0
  pub no_close_timer : s.close_timers ≡ 0
  pub not_connecting : s.connecting ≡ 0
  pub not_live : s.live ≡ 0

step-IsSilent : (e : Event) (s : State) → IsSilent s → IsSilent (step e s)
unfolding step
step-IsSilent granted s h = ground arith
step-IsSilent _ s h = ground arith

run-IsSilent : (es : List Event) (s : State) → IsSilent s → IsSilent (run es s)
unfolding run
run-IsSilent [] s h = h
run-IsSilent (e ∷ es) s h = run-IsSilent es (step e s) (step-IsSilent e s h)

-- When the only call of `connect` gets no ticket, the connection is never made again, although
-- nothing has ended the effect.
refused_forever :
    (s : State) (es : List Event)
    → s.connecting ≡ 1
    → s.error_timers ≡ 0
    → s.close_timers ≡ 0
    → s.live ≡ 0
    → IsSilent (run (refused ∷ es) s)
unfolding run
refused_forever s es a b c d = run-IsSilent es (step refused s) (unfold step in ground arith)
