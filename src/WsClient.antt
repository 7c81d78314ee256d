-- ===== src/WsClient.antt =====
-- `WsClient` of apps/web/src/lib/ws.ts. The browser's part of the state is in the same record: the
-- sockets, numbered as they are made, with their ready states, what was written to them, the timers
-- that wait, and the cursor in localStorage. An event is a call of the public interface, an event of
-- a socket, or a timer; each runs to its end before the next. The user's number in the URL is that of
-- WsClient.Cookie; the listeners, which only hand messages on, are left out.
pub mod Delivery
pub mod Reconnect
pub mod Cookie
mod Tests
use block_docs.Base.{
  ℕ, zero, suc, ◌+◌, ◌*◌, String, Bool, true, false, Option, none, some, List, [], ◌∷◌, ◌++◌, map,
  ite, ltb, leb, length, if◌then◌else◌, ℕ_discrete, nat_key, string_discrete,
}
use block_docs.JsMap
use block_docs.JsMap.{JsMap}
use block_docs.Ws.Protocol.{ClientMessage, ServerMessage}

pub data Outgoing : Type 0 where
  message : ClientMessage → Outgoing
  pong : Outgoing

pub data Incoming : Type 0 where
  ping pong : Incoming
  frame : ServerMessage → Incoming

-- `readyState`.
pub data Phase : Type 0 where
  connecting opened closing closed : Phase

pub record WsClient : Type 0 where
  pub ws : Option ℕ
  pub reconnect_attempt : ℕ
  pub closed_by_user : Bool
  pub send_queue : List Outgoing
  pub last_stream_id : Option String
  pub stored : Option String
  pub phases : JsMap ℕ Phase
  pub next : ℕ
  pub asked : List (Option String)
  pub sent : List (ℕ × Outgoing)
  pub timers : List ℕ

-- The constructor, where localStorage holds the cursor.
abbrev pub made : Option String → WsClient
made stored = record {
  ws = none;
  reconnect_attempt = 0;
  closed_by_user = false;
  send_queue = [];
  last_stream_id = stored;
  stored = stored;
  phases = [];
  next = 0;
  asked = [];
  sent = [];
  timers = [];
}

-- `if (this.lastStreamId)`: the cursor that the URL asks for.
unfoldable pub cursor_param : Option String → Option String
unfolding string_discrete
cursor_param none = none
cursor_param (some id) = ite (string_discrete id "") none (some id)

unfoldable pub open_socket : WsClient → WsClient
unfolding cursor_param JsMap.set
open_socket c = record c {
  ws = some c.next;
  phases = JsMap.set c.next connecting c.phases;
  next = c.next + 1;
  asked = c.asked ++ cursor_param c.last_stream_id ∷ [];
}

unfoldable pub connect : WsClient → WsClient
unfolding open_socket
connect c = open_socket (record c { closed_by_user = false })

-- `close()` of a socket.
close_phase : ℕ → Option Phase → JsMap ℕ Phase → JsMap ℕ Phase
close_phase s (some connecting) phases = JsMap.set s closing phases
close_phase s (some opened) phases = JsMap.set s closing phases
close_phase s _ phases = phases

unfoldable pub close_socket : ℕ → WsClient → WsClient
unfolding close_phase JsMap.get JsMap.set
close_socket s c = record c { phases = close_phase s (JsMap.get s c.phases) c.phases }

close_current : Option ℕ → WsClient → WsClient
unfolding close_socket
close_current none c = c
close_current (some s) c = record (close_socket s c) { ws = none }

unfoldable pub close : WsClient → WsClient
unfolding close_current
close c = close_current c.ws (record c { closed_by_user = true })

unfoldable pub reconnect : WsClient → WsClient
unfolding close_current connect
reconnect c = connect (close_current c.ws c)

-- The current socket, if it is in state OPEN.
is_opened : ℕ → Option Phase → Option ℕ
is_opened s (some opened) = some s
is_opened s _ = none

open_of : Option ℕ → JsMap ℕ Phase → Option ℕ
unfolding is_opened JsMap.get
open_of none phases = none
open_of (some s) phases = is_opened s (JsMap.get s phases)

unfoldable pub open_socket_of : WsClient → Option ℕ
unfolding open_of
open_socket_of c = open_of c.ws c.phases

send_on : Option ℕ → Outgoing → WsClient → WsClient
send_on none msg c = record c { send_queue = c.send_queue ++ msg ∷ [] }
send_on (some s) msg c = record c { sent = c.sent ++ (s, msg) ∷ [] }

unfoldable pub send : Outgoing → WsClient → WsClient
unfolding send_on open_socket_of
send msg c = send_on (open_socket_of c) msg c

flush_on : Option ℕ → WsClient → WsClient
flush_on none c = c
flush_on (some s) c = record c {
  sent = c.sent ++ map (λ msg. (s, msg)) c.send_queue;
  send_queue = [];
}

unfoldable pub flush_send_queue : WsClient → WsClient
unfolding flush_on open_socket_of
flush_send_queue c = flush_on (open_socket_of c) c

-- Each write of the cursor goes to the field and to localStorage.
unfoldable pub write_last_stream_id : Option String → WsClient → WsClient
write_last_stream_id id c = record c { last_stream_id = id; stored = id }

-- The cursor of `hello` counts only where there is none yet.
unfoldable pub greet : Option String → Option String → WsClient → WsClient
unfolding write_last_stream_id
greet (some id) none c = write_last_stream_id (some id) c
greet _ _ c = c

unfoldable pub on_frame : ServerMessage → WsClient → WsClient
unfolding write_last_stream_id greet cursor_param
on_frame (ServerMessage.remote_ops ops user id) c = write_last_stream_id (some id) c
on_frame (ServerMessage.crdt block delta user id) c = write_last_stream_id (some id) c
on_frame (ServerMessage.replay_done id) c = write_last_stream_id (some id) c
on_frame (ServerMessage.reload_required reason) c = write_last_stream_id none c
on_frame (ServerMessage.hello user id) c =
    greet (cursor_param (some id)) (cursor_param c.last_stream_id) c
on_frame _ c = c

-- `none` is a text that `JSON.parse` refuses.
unfoldable pub on_message : Option Incoming → WsClient → WsClient
unfolding send on_frame
on_message none c = c
on_message (some ping) c = send pong c
on_message (some (frame f)) c = on_frame f c
on_message (some pong) c = c

unfoldable pub power : ℕ → ℕ → ℕ
power b zero = 1
power b (suc n) = b * power b n

-- `Math.min(30_000, 1_000 * Math.pow(2, attempt))`
unfoldable pub backoff : ℕ → ℕ
unfolding power
backoff attempt = let delay = 1000 * power 2 attempt in if leb 30000 delay then 30000 else delay

unfoldable pub schedule_reconnect : ℕ → WsClient → WsClient
unfolding backoff
schedule_reconnect jitter c = record c {
  reconnect_attempt = c.reconnect_attempt + 1;
  timers = c.timers ++ (backoff c.reconnect_attempt + jitter) ∷ [];
}

unfoldable pub trigger_close : ℕ → WsClient → WsClient
unfolding schedule_reconnect
trigger_close jitter c = elim c.closed_by_user [ true ↦ c | false ↦ schedule_reconnect jitter c ]

-- What the timer does.
unfoldable pub fire : WsClient → WsClient
unfolding open_socket
fire c = elim c.closed_by_user [ true ↦ c | false ↦ open_socket c ]

pub data Event : Type 0 where
  connects closes reconnects : Event
  sends : Outgoing → Event
  opens : (socket : ℕ) → Event
  hears : (socket : ℕ) → Option Incoming → Event
  drops : (socket jitter : ℕ) → Event
  fails : (socket : ℕ) → Event
  fires : (timer : ℕ) → Event

-- The browser gives an event only to a socket in the right state.
when_connecting : Option Phase → WsClient → WsClient → WsClient
when_connecting (some connecting) c otherwise = c
when_connecting _ c otherwise = otherwise

when_opened : Option Phase → WsClient → WsClient → WsClient
when_opened (some opened) c otherwise = c
when_opened _ c otherwise = otherwise

when_alive : Option Phase → WsClient → WsClient → WsClient
when_alive none c otherwise = otherwise
when_alive (some closed) c otherwise = otherwise
when_alive _ c otherwise = c

unfoldable pub on_open : ℕ → WsClient → WsClient
unfolding flush_send_queue JsMap.set
on_open s c =
    flush_send_queue (record c { phases = JsMap.set s opened c.phases; reconnect_attempt = 0 })

unfoldable pub on_close : ℕ → ℕ → WsClient → WsClient
unfolding trigger_close JsMap.set
on_close s jitter c = trigger_close jitter (record c { phases = JsMap.set s closed c.phases })

without_at : ℕ → List ℕ → List ℕ
without_at i [] = []
without_at zero (t ∷ ts) = ts
without_at (suc i) (t ∷ ts) = t ∷ without_at i ts

unfoldable pub on_timer : Bool → ℕ → WsClient → WsClient
unfolding fire without_at
on_timer true i c = fire (record c { timers = without_at i c.timers })
on_timer false i c = c

unfoldable pub step : WsClient → Event → WsClient
unfolding when_connecting when_opened when_alive JsMap.get
step c connects = connect c
step c closes = close c
step c reconnects = reconnect c
step c (sends msg) = send msg c
step c (opens s) = when_connecting (JsMap.get s c.phases) (on_open s c) c
step c (hears s msg) = when_opened (JsMap.get s c.phases) (on_message msg c) c
step c (drops s jitter) = when_alive (JsMap.get s c.phases) (on_close s jitter c) c
step c (fails s) = when_alive (JsMap.get s c.phases) (close_socket s c) c
step c (fires i) = on_timer (ltb i (length c.timers)) i c

unfoldable pub run : WsClient → List Event → WsClient
unfolding step
run c [] = c
run c (e ∷ es) = run (step c e) es
