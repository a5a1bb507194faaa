-- ===== src/Chat/Socket.antt =====
-- The connection that brings chat events (`useChatWebSocket` of frontend/src/hooks/useChatData.ts), as
-- a machine whose steps are the browser's callbacks. What the effect closes over is counted: the
-- timers that either handler has set, the calls of `connect` that wait for their ticket, the sockets
-- that are open or opening, and the ping intervals that run, with the one that `pingInterval` holds.
-- A step that the browser cannot take changes nothing.
pub mod Cleanup
pub mod Storm
use hunger_platform.Prelude.{
  ℕ, zero, suc, ◌+◌, ◌-◌, Bool, true, false, ◌&&◌, not, List, [], ◌∷◌, if◌then◌else◌, ◌==◌,
}

pub record State : Type 0 where
  pub cancelled : Bool
  pub error_timers : ℕ
  pub close_timers : ℕ
  pub connecting : ℕ
  pub live : ℕ
  pub created : ℕ
  pub pings : ℕ
  pub held : Bool

-- `granted` and `refused` end the wait for a ticket; `errored` and `closed` are the events of a
-- socket; the timers are those that `onerror` and `onclose` set; `cleanup` is the effect's end.
pub data Event : Type 0 where
  granted refused opened errored closed error_timer close_timer cleanup : Event

-- The effect's start: `connect` is called.
unfoldable pub start : State
start = record {
  cancelled = false;
  error_timers = 0;
  close_timers = 0;
  connecting = 1;
  live = 0;
  created = 0;
  pings = 0;
  held = false;
}

-- `if (pingInterval) clearInterval(pingInterval)`
unfoldable pub clear_ping : State → State
clear_ping s = if s.held then record s { pings = s.pings - 1; held = false } else s

-- `if (!token || cancelled) return;`, and then the socket.
unfoldable pub with_ticket : ℕ → State → State
with_ticket waiting s =
    if s.cancelled
    then record s { connecting = waiting }
    else record s { connecting = waiting; live = s.live + 1; created = s.created + 1 }

-- `ws.onclose`
unfoldable pub on_close : State → State
unfolding clear_ping
on_close s =
    let t = clear_ping s in
    if not t.cancelled then record t { close_timers = t.close_timers + 1 } else t

unfoldable pub step : Event → State → State
unfolding with_ticket on_close clear_ping
step granted s = if s.connecting == 0 then s else with_ticket (s.connecting - 1) s
step refused s = if s.connecting == 0 then s else record s { connecting = s.connecting - 1 }
step opened s = if s.live == 0 then s else record s { pings = s.pings + 1; held = true }
step errored s = if s.live == 0 then s else record s { error_timers = s.error_timers + 1 }
step closed s = if s.live == 0 then s else on_close (record s { live = s.live - 1 })
step error_timer s =
    if s.error_timers == 0
    then s
    else if not s.cancelled
    then record s { error_timers = s.error_timers - 1; connecting = s.connecting + 1 }
    else record s { error_timers = s.error_timers - 1 }
step close_timer s =
    if s.close_timers == 0
    then s
    else record s { close_timers = s.close_timers - 1; connecting = s.connecting + 1 }
step cleanup s = let t = clear_ping s in record t { cancelled = true }

unfoldable pub run : List Event → State → State
run [] s = s
run (e ∷ es) s = run es (step e s)
