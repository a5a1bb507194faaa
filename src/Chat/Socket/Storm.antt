-- ===== src/Chat/Socket/Storm.antt =====
-- How many sockets a failing server makes (`useChatWebSocket` of frontend/src/hooks/useChatData.ts). A
-- socket whose connection fails calls `onerror` and then `onclose`, and each sets a timer of its own.
use hunger_platform.Prelude.{ℕ, zero, suc, ◌+◌, ◌*◌, ◌^◌, ◌<◌, ◌≡◌, false, List, [], ◌∷◌, arith}
use native.Mathlib.Nat.{pow-suc}
use hunger_platform.Chat.Socket.{
  State, Event, step, run, granted, errored, closed, error_timer, close_timer,
}

-- The counts of a state that the effect's end has not reached.
pub record Has (errors closes waiting sockets : ℕ) (s : State) : Type 0 where
  pub running : s.cancelled ≡ false
  pub errors_eq : s.error_timers ≡ errors
  pub closes_eq : s.close_timers ≡ closes
  pub waiting_eq : s.connecting ≡ waiting
  pub sockets_eq : s.live ≡ sockets

pub repeat : ℕ → Event → List Event → List Event
repeat zero e es = es
repeat (suc n) e es = e ∷ repeat n e es

-- What the steps of one kind do to the counts, for a property of the state at the end.
module _ (P : State → Type 0) where
  run_errored :
      (n e c w l : ℕ) (es : List Event) (s : State)
      → Has e c w (suc l) s
      → ((t : State) → Has (e + n) c w (suc l) t → P (run es t))
      → P (run (repeat n errored es) s)
  unfolding run repeat
  run_errored zero e c w l es s h k = k s (ground arith)
  run_errored (suc n) e c w l es s h k =
      run_errored n (e + 1) c w l es (step errored s) (unfold step in ground arith)
        (λ t has. k t (ground arith))

  run_closed :
      (n e c w l : ℕ) (es : List Event) (s : State)
      → Has e c w (n + l) s
      → ((t : State) → Has e (c + n) w l t → P (run es t))
      → P (run (repeat n closed es) s)
  unfolding run repeat
  run_closed zero e c w l es s h k = k s (ground arith)
  run_closed (suc n) e c w l es s h k =
      run_closed n e (c + 1) w l es (step closed s) (unfold step in ground arith)
        (λ t has. k t (ground arith))

  run_error_timers :
      (n c w l : ℕ) (es : List Event) (s : State)
      → Has n c w l s
      → ((t : State) → Has 0 c (w + n) l t → P (run es t))
      → P (run (repeat n error_timer es) s)
  unfolding run repeat
  run_error_timers zero c w l es s h k = k s (ground arith)
  run_error_timers (suc n) c w l es s h k =
      run_error_timers n c (w + 1) l es (step error_timer s) (unfold step in ground arith)
        (λ t has. k t (ground arith))

  run_close_timers :
      (n w l : ℕ) (es : List Event) (s : State)
      → Has 0 n w l s
      → ((t : State) → Has 0 0 (w + n) l t → P (run es t))
      → P (run (repeat n close_timer es) s)
  unfolding run repeat
  run_close_timers zero w l es s h k = k s (ground arith)
  run_close_timers (suc n) w l es s h k =
      run_close_timers n (w + 1) l es (step close_timer s) (unfold step in ground arith)
        (λ t has. k t (ground arith))

  run_granted :
      (n l : ℕ) (es : List Event) (s : State)
      → Has 0 0 n l s
      → ((t : State) → Has 0 0 0 (l + n) t → P (run es t))
      → P (run (repeat n granted es) s)
  unfolding run repeat
  run_granted zero l es s h k = k s (ground arith)
  run_granted (suc n) l es s h k =
      run_granted n (l + 1) es (step granted s) (unfold step in ground arith)
        (λ t has. k t (ground arith))

-- Every socket fails; the timers fire, and every call of `connect` gets its ticket.
pub failing_round : ℕ → List Event → List Event
failing_round n es =
    repeat n errored
      (repeat n closed (repeat n error_timer (repeat n close_timer (repeat (n + n) granted es))))

-- Every socket is closed without an error; the timers fire, and every call gets its ticket.
pub closing_round : ℕ → List Event → List Event
closing_round n es = repeat n closed (repeat n close_timer (repeat n granted es))

module _ (P : State → Type 0) (es : List Event) (s : State) where
  run_failing_round :
      (n : ℕ)
      → Has 0 0 0 (suc n) s
      → ((t : State) → Has 0 0 0 (suc n + suc n) t → P (run es t))
      → P (run (failing_round (suc n) es) s)
  unfolding failing_round
  run_failing_round n h k = run_errored P (suc n) 0 0 0 n _ s h λ t1 h1.
      run_closed P (suc n) (suc n) 0 0 0 _ t1 (ground arith) λ t2 h2.
        run_error_timers P (suc n) (suc n) 0 0 _ t2 (ground arith) λ t3 h3.
          run_close_timers P (suc n) (suc n) 0 _ t3 (ground arith) λ t4 h4.
            run_granted P (suc n + suc n) 0 es t4 (ground arith) λ t5 h5. k t5 (ground arith)

  run_closing_round :
      (n : ℕ)
      → Has 0 0 0 n s
      → ((t : State) → Has 0 0 0 n t → P (run es t))
      → P (run (closing_round n es) s)
  unfolding closing_round
  run_closing_round n h k = run_closed P n 0 0 0 0 _ s (ground arith) λ t1 h1.
      run_close_timers P n 0 0 _ t1 (ground arith)
        λ t2 h2. run_granted P n 0 es t2 (ground arith) λ t3 h3. k t3 (ground arith)

-- A close that no error announces leaves as many sockets as there were, round after round.
pub calm : ℕ → ℕ → List Event
calm zero n = []
calm (suc k) n = closing_round n (calm k n)

-- However often the server closes all connections without an error, there are as many sockets
-- afterwards.
pub run-calm : (k n : ℕ) (s : State) → Has 0 0 0 n s → Has 0 0 0 n (run (calm k n) s)
unfolding calm run
run-calm zero n s h = h
run-calm (suc k) n s h =
    run_closing_round (Has 0 0 0 n) (calm k n) s n h λ t has. run-calm k n t has

-- So many failing rounds, from so many sockets.
pub storm : ℕ → ℕ → List Event
storm zero n = []
storm (suc k) n = failing_round n (storm k (n + n))

double : (n k : ℕ) → (n + n) * 2 ^ k ≡ n * 2 ^ suc k
double n k = rw pow-suc (grind arith)

-- Each round in which all connections fail doubles the sockets: from `n` of them there are
-- `n * 2 ^ k` after `k` rounds.
pub run-storm :
    (k n : ℕ) (s : State) → 0 < n → Has 0 0 0 n s → Has 0 0 0 (n * 2 ^ k) (run (storm k n) s)
unfolding storm run
run-storm zero n s pos h = ground arith
run-storm (suc k) zero s pos h = absurd (omega arith)
run-storm (suc k) (suc n) s pos h =
    run_failing_round (Has 0 0 0 (suc n * 2 ^ suc k)) (storm k (suc n + suc n)) s n h
      λ t has. rw (← double (suc n) k) (run-storm k (suc n + suc n) t (omega arith) has)
