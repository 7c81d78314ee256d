-- ===== src/WsClient/Reconnect.antt =====
-- When apps/web/src/lib/ws.ts opens sockets: its timers, `close` and `reconnect`.
use block_docs.Base.{
  ℕ, String, zero, suc, ◌+◌, ◌*◌, ◌≤◌, ◌<◌, ◌≡◌, refl, ◌∙◌, ap, Bool, true, false, Option, none,
  some, List, [], ◌∷◌, ◌++◌, ltb, leb, arith, length, length-append, nat_key, if◌then◌else◌, All,
}
use block_docs.JsMap
use block_docs.JsMap.{JsMap}
use block_docs.JsMap.Laws.{get-set}
use block_docs.Ws.Protocol.{ServerMessage}
use block_docs.WsClient.{
  WsClient, Outgoing, Incoming, ping, frame, Phase, connecting, opened, closing, closed,
  open_socket, connect, close_phase, close_socket, close_current, close, reconnect, send_on, send,
  flush_on, flush_send_queue, write_last_stream_id, cursor_param, greet, on_frame, on_message,
  power, backoff, schedule_reconnect, trigger_close, fire, Event, connects, closes, reconnects,
  sends, opens, hears, drops, fails, fires, when_connecting, when_opened, when_alive, on_open,
  on_close, on_timer, without_at, step, run,
}

power_positive : (n : ℕ) → 1 ≤ power 2 n
unfolding power
power_positive zero = omega arith
power_positive (suc n) = omega (arith, power_positive n)

-- A delay is at least a second and at most half a minute; it doubles from failure to failure until
-- it stays at half a minute.
pub backoff_lem :
    (n : ℕ)
    → (1000 ≤ backoff n)
      × (backoff n ≤ 30000)
      × (backoff (suc n) ≡ (if leb 30000 (2 * backoff n) then 30000 else 2 * backoff n))
unfolding backoff power
backoff_lem n = (
  ground (arith, power_positive n),
  ground (arith, power_positive n),
  ground (arith, power_positive n),
)

-- No timer opens a socket, and no call of the application does.
abbrev pub IsAfterClose : Event → Type 0
IsAfterClose connects = ⊥
IsAfterClose reconnects = ⊥
IsAfterClose e = Unit

-- What decides on new sockets stays as it is.
record SameSockets (c d : WsClient) : Type 0 where
  closed : d.closed_by_user ≡ c.closed_by_user
  next : d.next ≡ c.next

abbrev same : (c : WsClient) → SameSockets c c
same c = record { closed = refl; next = refl }

send_on-same : (c : WsClient) (msg : Outgoing) (o : Option ℕ) → SameSockets c (send_on o msg c)
unfolding send_on
send_on-same c msg none = record { closed = refl; next = refl }
send_on-same c msg (some s) = record { closed = refl; next = refl }

flush_on-same : (c : WsClient) (o : Option ℕ) → SameSockets c (flush_on o c)
unfolding flush_on
flush_on-same c none = same c
flush_on-same c (some s) = record { closed = refl; next = refl }

greet-same : (c : WsClient) (a b : Option String) → SameSockets c (greet a b c)
unfolding greet write_last_stream_id
greet-same c none b = same c
greet-same c (some a) none = record { closed = refl; next = refl }
greet-same c (some a) (some b) = same c

on_frame-same : (c : WsClient) (f : ServerMessage) → SameSockets c (on_frame f c)
unfolding on_frame write_last_stream_id
on_frame-same c (ServerMessage.remote_ops ops user id) = record { closed = refl; next = refl }
on_frame-same c (ServerMessage.crdt block delta user id) = record { closed = refl; next = refl }
on_frame-same c (ServerMessage.replay_done id) = record { closed = refl; next = refl }
on_frame-same c (ServerMessage.reload_required reason) = record { closed = refl; next = refl }
on_frame-same c (ServerMessage.hello user id) = greet-same c _ _
on_frame-same c f = same c

on_message-same : (c : WsClient) (m : Option Incoming) → SameSockets c (on_message m c)
unfolding on_message send
on_message-same c none = same c
on_message-same c (some ping) = send_on-same c Outgoing.pong _
on_message-same c (some (frame f)) = on_frame-same c f
on_message-same c (some Incoming.pong) = same c

on_open-same : (c : WsClient) (s : ℕ) → SameSockets c (on_open s c)
unfolding on_open flush_send_queue
on_open-same c s =
    let p =
      flush_on-same (record c { phases = JsMap.set s opened c.phases; reconnect_attempt = 0 }) _ in
    record { closed = p.closed; next = p.next }

close_current-same : (c : WsClient) (o : Option ℕ) → SameSockets c (close_current o c)
unfolding close_current close_socket
close_current-same c none = same c
close_current-same c (some s) = record { closed = refl; next = refl }

-- After `close`.
record IsFinished (n : ℕ) (c : WsClient) : Type 0 where
  closed : c.closed_by_user ≡ true
  next : c.next ≡ n

finished : (n : ℕ) (c d : WsClient) → IsFinished n c → SameSockets c d → IsFinished n d
finished n c d f s = record { closed = s.closed ∙ f.closed; next = s.next ∙ f.next }

trigger_close-IsFinished :
    (n jitter : ℕ) (c : WsClient) → IsFinished n c → IsFinished n (trigger_close jitter c)
unfolding trigger_close
trigger_close-IsFinished n jitter c f = rw (f.closed, trigger_close) f

fire-IsFinished : (n : ℕ) (c : WsClient) → IsFinished n c → IsFinished n (fire c)
unfolding fire
fire-IsFinished n c f = rw (f.closed, fire) f

when_opened-IsFinished :
    (n : ℕ) (c d : WsClient) (o : Option Phase)
    → IsFinished n c
    → IsFinished n d
    → IsFinished n (when_opened o d c)
      × IsFinished n (when_connecting o d c)
      × IsFinished n (when_alive o d c)
unfolding when_opened when_connecting when_alive
when_opened-IsFinished n c d none f g = (f, f, f)
when_opened-IsFinished n c d (some connecting) f g = (f, g, g)
when_opened-IsFinished n c d (some opened) f g = (g, f, g)
when_opened-IsFinished n c d (some closing) f g = (f, f, g)
when_opened-IsFinished n c d (some closed) f g = (f, f, f)

on_timer-IsFinished :
    (n i : ℕ) (b : Bool) (c : WsClient) → IsFinished n c → IsFinished n (on_timer b i c)
unfolding on_timer
on_timer-IsFinished n i true c f =
    fire-IsFinished n (record c { timers = without_at i c.timers })
      (record { closed = f.closed; next = f.next })
on_timer-IsFinished n i false c f = f

step-IsFinished :
    (n : ℕ) (c : WsClient) (e : Event) → IsAfterClose e → IsFinished n c → IsFinished n (step c e)
unfolding step close send on_open on_close flush_send_queue close_socket
step-IsFinished n c connects a f = absurd a
step-IsFinished n c reconnects a f = absurd a
step-IsFinished n c closes a f =
    finished n (record c { closed_by_user = true }) _ (record { closed = refl; next = f.next })
      (close_current-same (record c { closed_by_user = true }) c.ws)
step-IsFinished n c (sends msg) a f = finished n c _ f (send_on-same c msg _)
step-IsFinished n c (opens s) a f =
    (when_opened-IsFinished n c (on_open s c) (JsMap.get s c.phases) f
      (finished n c (on_open s c) f (on_open-same c s))).1
step-IsFinished n c (hears s m) a f =
    (when_opened-IsFinished n c (on_message m c) (JsMap.get s c.phases) f
      (finished n c (on_message m c) f (on_message-same c m))).0
step-IsFinished n c (drops s jitter) a f =
    (when_opened-IsFinished n c (on_close s jitter c) (JsMap.get s c.phases) f (
      trigger_close-IsFinished n jitter (record c { phases = JsMap.set s closed c.phases })
        (record { closed = f.closed; next = f.next }))).2
step-IsFinished n c (fails s) a f =
    (when_opened-IsFinished n c (close_socket s c) (JsMap.get s c.phases) f
      (record { closed = f.closed; next = f.next })).2
step-IsFinished n c (fires i) a f = on_timer-IsFinished n i _ c f

run-IsFinished :
    (n : ℕ) (es : List Event) (c : WsClient)
    → All IsAfterClose es
    → IsFinished n c
    → IsFinished n (run c es)
unfolding run
run-IsFinished n [] c a f = f
run-IsFinished n (e ∷ es) c a f = run-IsFinished n es (step c e) a.1 (step-IsFinished n c e a.0 f)

-- After `close`, and until the application calls `connect` or `reconnect`, no sequence of events
-- makes a new socket: neither the sockets' late close events nor the timers that still wait.
pub close_is_final :
    (es : List Event) (c : WsClient) → All IsAfterClose es → (run (close c) es).next ≡ c.next
unfolding close
close_is_final es c a =
    (run-IsFinished c.next es (close c) a (
      finished c.next (record c { closed_by_user = true }) _ (record { closed = refl; next = refl })
        (close_current-same (record c { closed_by_user = true }) c.ws))).next

phase_after :
    (s : ℕ) (o : Option Phase) (phases : JsMap ℕ Phase) (n : ℕ)
    → s < n
    → o ≡ some opened
    → JsMap.get s (JsMap.set n connecting (close_phase s o phases)) ≡ some closing
unfolding close_phase
phase_after s none phases n h e = cc
phase_after s (some opened) phases n h e =
    ground (arith, get-set s n connecting (JsMap.set s closing phases), get-set s s closing phases)
phase_after s (some connecting) phases n h e = cc
phase_after s (some closing) phases n h e = cc
phase_after s (some closed) phases n h e = cc

last_timer : (ts : List ℕ) (t : ℕ) → ltb (length ts) (length (ts ++ t ∷ [])) ≡ true
last_timer ts t = ground (arith, length-append ts (t ∷ []))

-- A `reconnect` while a socket is open makes two new ones: one at once, and, when the old socket's
-- close event has come, one more when the timer fires that this event starts.
pub reconnect_doubles :
    (c : WsClient) (s jitter : ℕ)
    → c.ws ≡ some s
    → JsMap.get s c.phases ≡ some opened
    → s < c.next
    → (run c (reconnects ∷ drops s jitter ∷ fires (length c.timers) ∷ [])).next ≡ c.next + 2
unfolding run step reconnect close_current connect open_socket close_socket when_alive on_close
    trigger_close schedule_reconnect on_timer fire
reconnect_doubles c s jitter w o h =
    let d = connect (close_current (some s) c) in
    let e = on_close s jitter d in
    ap
      (λ x.
        (step (step (connect (close_current x c)) (drops s jitter)) (fires (length c.timers))).next)
      w
    ∙ ap (λ x. (step (when_alive x e d) (fires (length c.timers))).next)
        (phase_after s (JsMap.get s c.phases) c.phases c.next h o)
    ∙ ap (λ b. (on_timer b (length c.timers) e).next)
        (last_timer c.timers (backoff c.reconnect_attempt + jitter))
    ∙ omega arith

by_user : (b : Bool) (c d : WsClient) → b ≡ false → elim b [ true ↦ c | false ↦ d ] ≡ d
by_user true c d h = cc
by_user false c d h = refl

reopened : (c : WsClient) → c.closed_by_user ≡ false → fire c ≡ open_socket c
unfolding fire
reopened c h = by_user c.closed_by_user c (open_socket c) h

rescheduled :
    (c : WsClient) (jitter : ℕ)
    → c.closed_by_user ≡ false
    → trigger_close jitter c ≡ schedule_reconnect jitter c
unfolding trigger_close
rescheduled c jitter h = by_user c.closed_by_user c (schedule_reconnect jitter c) h

-- If an open socket drops that the application did not close, then the timer that this starts makes
-- a new socket, which becomes the current one and asks for what came after the client's cursor.
pub drop_reopens :
    (c : WsClient) (s jitter : ℕ)
    → c.closed_by_user ≡ false
    → JsMap.get s c.phases ≡ some opened
    → let d = run c (drops s jitter ∷ fires (length c.timers) ∷ []) in
      (d.ws ≡ some c.next) × (d.asked ≡ c.asked ++ cursor_param c.last_stream_id ∷ [])
unfolding run step when_alive on_close on_timer schedule_reconnect open_socket
drop_reopens c s jitter h o =
    let d = schedule_reconnect jitter (record c { phases = JsMap.set s closed c.phases }) in
    let t = record d { timers = without_at (length c.timers) d.timers } in
    let dropped : on_close s jitter c ≡ d = rescheduled _ jitter h in
    let p : run c (drops s jitter ∷ fires (length c.timers) ∷ []) ≡ open_socket t =
      ap (λ x. step (when_alive x (on_close s jitter c) c) (fires (length c.timers))) o
      ∙ ap (λ x. step x (fires (length c.timers))) dropped
      ∙ ap (λ b. on_timer b (length c.timers) d)
          (last_timer c.timers (backoff c.reconnect_attempt + jitter))
      ∙ reopened t h in
    (ap (λ (x : WsClient). x.ws) p, ap (λ (x : WsClient). x.asked) p)
