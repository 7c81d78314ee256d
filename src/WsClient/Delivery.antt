-- ===== src/WsClient/Delivery.antt =====
-- The messages that apps/web/src/lib/ws.ts is handed, those that it wrote, and those that wait.
use block_docs.Base.{
  ℕ, ◌≡◌, refl, sym, ◌∙◌, ap, ap₂, Bool, true, false, Option, none, some, List, [], ◌∷◌, ◌++◌, map,
  arith, append-nil, append_assoc, ℕ_discrete, nat_key,
}
use block_docs.JsMap
use block_docs.JsMap.{JsMap}
use block_docs.JsMap.Laws.{get-set}
use block_docs.Base.{String, none≢some}
use block_docs.Ws.Protocol.{ServerMessage}
use block_docs.WsClient.{
  WsClient, Outgoing, pong, Incoming, ping, frame, Phase, connecting, opened, closing, closed,
  open_socket, connect, close_phase, close_socket, close_current, close, reconnect, is_opened,
  open_of, open_socket_of, send_on, send, flush_on, flush_send_queue, write_last_stream_id, greet,
  on_frame, on_message, schedule_reconnect, trigger_close, fire, Event, connects, closes,
  reconnects, sends, opens, hears, drops, fails, fires, when_connecting, when_opened, when_alive,
  on_open, on_close, on_timer, without_at, step, run,
}

abbrev pub contents : List (ℕ × Outgoing) → List Outgoing
contents = map λ m. m.1

-- What was written so far, and what waits.
unfoldable pub messages : WsClient → List Outgoing
messages c = contents c.sent ++ c.send_queue

-- The messages that an event hands to `send`.
unfoldable answer_to : Option Phase → Option Incoming → List Outgoing
answer_to (some opened) (some ping) = pong ∷ []
answer_to p m = []

unfoldable pub handed : WsClient → Event → List Outgoing
unfolding answer_to JsMap.get ℕ_discrete
handed c (sends msg) = msg ∷ []
handed c (hears s msg) = answer_to (JsMap.get s c.phases) msg
handed c e = []

unfoldable pub handed_all : WsClient → List Event → List Outgoing
handed_all c [] = []
handed_all c (e ∷ es) = handed c e ++ handed_all (step c e) es

-- Nothing waits while the current socket is open.
abbrev pub IsDrained : WsClient → Type 0
IsDrained c = (s : ℕ) → open_socket_of c ≡ some s → c.send_queue ≡ []

contents-append : (xs ys : List (ℕ × Outgoing)) → contents (xs ++ ys) ≡ contents xs ++ contents ys
contents-append [] ys = refl
contents-append (x ∷ xs) ys = ap (λ l. x.1 ∷ l) (contents-append xs ys)

contents-on : (s : ℕ) (q : List Outgoing) → contents (map (λ msg. (s, msg)) q) ≡ q
contents-on s [] = refl
contents-on s (m ∷ q) = ap (λ l. m ∷ l) (contents-on s q)

-- One event: the invariant, and the messages.
abbrev Delivers : WsClient → WsClient → List Outgoing → Type 0
Delivers c d new = IsDrained d × (messages d ≡ messages c ++ new)

send_on-Delivers :
    (c : WsClient) (msg : Outgoing) (o : Option ℕ)
    → open_socket_of c ≡ o
    → IsDrained c
    → Delivers c (send_on o msg c) (msg ∷ [])
unfolding send_on messages open_socket_of
send_on-Delivers c msg none e d =
    (λ s p. cc, ground (arith, append_assoc (contents c.sent) c.send_queue (msg ∷ [])))
send_on-Delivers c msg (some w) e d = (
  λ s p. d s p,
  rw (d w e, contents-append c.sent ((w, msg) ∷ []))
      (ground (arith, append-nil (contents c.sent), append-nil (contents c.sent ++ msg ∷ []))),
)

flush_on-Delivers :
    (c : WsClient) (o : Option ℕ) → open_socket_of c ≡ o → Delivers c (flush_on o c) []
unfolding flush_on messages open_socket_of
flush_on-Delivers c none e = (λ s p. cc, sym (append-nil _))
flush_on-Delivers c (some w) e = (
  λ s p. refl,
  rw (contents-append c.sent (map (λ msg. (w, msg)) c.send_queue), contents-on w c.send_queue) refl,
)

-- A socket that goes to a state that is not OPEN.
open_of-set :
    (ws : Option ℕ) (s : ℕ) (p : Phase) (phases : JsMap ℕ Phase)
    → ((v : ℕ) → is_opened v (some p) ≡ none)
    → (w : ℕ) → open_of ws (JsMap.set s p phases) ≡ some w
    → open_of ws phases ≡ some w
unfolding open_of is_opened
open_of-set none s p phases h w e = cc
open_of-set (some v) s p phases h w e = ground (arith, get-set v s p phases, h v)

-- Nothing else of the client changes.
quiet :
    (c d : WsClient)
    → ((s : ℕ) → open_socket_of d ≡ some s → open_socket_of c ≡ some s)
    → c.send_queue ≡ d.send_queue
    → c.sent ≡ d.sent
    → IsDrained c
    → Delivers c d []
unfolding messages
quiet c d o q w drained =
    (λ s p. sym q ∙ drained s (o s p), sym (ap₂ (λ a b. contents a ++ b) w q) ∙ sym (append-nil _))

set-Delivers :
    (c : WsClient) (s : ℕ) (p : Phase)
    → ((v : ℕ) → is_opened v (some p) ≡ none)
    → IsDrained c
    → Delivers c (record c { phases = JsMap.set s p c.phases }) []
unfolding open_socket_of
set-Delivers c s p h d = quiet c _ (λ w e. open_of-set c.ws s p c.phases h w e) refl refl d

close_socket-Delivers : (c : WsClient) (s : ℕ) → IsDrained c → Delivers c (close_socket s c) []
unfolding close_socket close_phase is_opened
close_socket-Delivers c s d = go (JsMap.get s c.phases)
  where
    go : (o : Option Phase) → Delivers c (record c { phases = close_phase s o c.phases }) []
    go none = quiet c _ (λ w e. e) refl refl d
    go (some connecting) = set-Delivers c s closing (λ v. refl) d
    go (some opened) = set-Delivers c s closing (λ v. refl) d
    go (some closing) = quiet c _ (λ w e. e) refl refl d
    go (some closed) = quiet c _ (λ w e. e) refl refl d

then-Delivers :
    (c d e : WsClient) (new : List Outgoing) → Delivers c d [] → Delivers d e new → Delivers c e new
then-Delivers c d e new p q = (q.0, q.1 ∙ ap (λ l. l ++ new) (p.1 ∙ append-nil (messages c)))

-- A new socket is not open.
open_socket-Delivers : (c : WsClient) → IsDrained c → Delivers c (open_socket c) []
unfolding open_socket open_socket_of open_of is_opened messages
open_socket-Delivers c d = (
  λ s p. ground (arith, p, get-set c.next c.next connecting c.phases),
  sym (append-nil (messages c)),
)

close_current-Delivers :
    (c : WsClient) (o : Option ℕ) → IsDrained c → Delivers c (close_current o c) []
unfolding close_current open_socket_of open_of messages
close_current-Delivers c none d = quiet c c (λ w e. e) refl refl d
close_current-Delivers c (some s) d =
    then-Delivers c (close_socket s c) (record (close_socket s c) { ws = none }) []
      (close_socket-Delivers c s d)
      (quiet (close_socket s c) (record (close_socket s c) { ws = none })
        (λ w e. absurd (none≢some w e)) refl refl (close_socket-Delivers c s d).0)

trigger_close-Delivers :
    (c : WsClient) (jitter : ℕ) → IsDrained c → Delivers c (trigger_close jitter c) []
unfolding trigger_close schedule_reconnect open_socket_of
trigger_close-Delivers c jitter d = go c.closed_by_user
  where
    go : (b : Bool) → Delivers c (elim b [ true ↦ c | false ↦ schedule_reconnect jitter c ]) []
    go true = quiet c c (λ w e. e) refl refl d
    go false = quiet c _ (λ w e. e) refl refl d

fire-Delivers : (c : WsClient) → IsDrained c → Delivers c (fire c) []
unfolding fire
fire-Delivers c d = go c.closed_by_user
  where
    go : (b : Bool) → Delivers c (elim b [ true ↦ c | false ↦ open_socket c ]) []
    go true = quiet c c (λ w e. e) refl refl d
    go false = open_socket-Delivers c d

on_open-Delivers : (c : WsClient) (s : ℕ) → Delivers c (on_open s c) []
unfolding on_open flush_send_queue messages
on_open-Delivers c s =
    flush_on-Delivers (record c { phases = JsMap.set s opened c.phases; reconnect_attempt = 0 }) _
      refl

-- The cursor is no message.
write-Delivers :
    (c : WsClient) (id : Option String) → IsDrained c → Delivers c (write_last_stream_id id c) []
unfolding write_last_stream_id open_socket_of
write-Delivers c id d = quiet c _ (λ w e. e) refl refl d

greet-Delivers :
    (c : WsClient) (id own : Option String) → IsDrained c → Delivers c (greet id own c) []
unfolding greet
greet-Delivers c none own d = quiet c c (λ w e. e) refl refl d
greet-Delivers c (some id) none d = write-Delivers c (some id) d
greet-Delivers c (some id) (some own) d = quiet c c (λ w e. e) refl refl d

on_frame-Delivers : (c : WsClient) (f : ServerMessage) → IsDrained c → Delivers c (on_frame f c) []
unfolding on_frame
on_frame-Delivers c (ServerMessage.remote_ops ops user id) d = write-Delivers c (some id) d
on_frame-Delivers c (ServerMessage.crdt block delta user id) d = write-Delivers c (some id) d
on_frame-Delivers c (ServerMessage.replay_done id) d = write-Delivers c (some id) d
on_frame-Delivers c (ServerMessage.reload_required reason) d = write-Delivers c none d
on_frame-Delivers c (ServerMessage.hello user id) d = greet-Delivers c _ _ d
on_frame-Delivers c f d = quiet c c (λ w e. e) refl refl d

hears-Delivers :
    (c : WsClient) (m : Option Incoming) (o : Option Phase)
    → IsDrained c
    → Delivers c (when_opened o (on_message m c) c) (answer_to o m)
unfolding when_opened on_message answer_to send
hears-Delivers c none none d = quiet c c (λ w e. e) refl refl d
hears-Delivers c none (some opened) d = quiet c c (λ w e. e) refl refl d
hears-Delivers c (some ping) (some opened) d = send_on-Delivers c Outgoing.pong _ refl d
hears-Delivers c (some (frame f)) (some opened) d = on_frame-Delivers c f d
hears-Delivers c (some Incoming.pong) (some opened) d = quiet c c (λ w e. e) refl refl d
hears-Delivers c m p d = (d, sym (append-nil (messages c)))

opens-Delivers :
    (c : WsClient) (s : ℕ) (o : Option Phase)
    → IsDrained c
    → Delivers c (when_connecting o (on_open s c) c) []
unfolding when_connecting
opens-Delivers c s (some connecting) d = on_open-Delivers c s
opens-Delivers c s o d = (d, sym (append-nil (messages c)))

alive-Delivers :
    (c e : WsClient) (o : Option Phase)
    → IsDrained c
    → Delivers c e []
    → Delivers c (when_alive o e c) []
unfolding when_alive
alive-Delivers c e none d p = quiet c c (λ w e. e) refl refl d
alive-Delivers c e (some closed) d p = quiet c c (λ w e. e) refl refl d
alive-Delivers c e (some connecting) d p = p
alive-Delivers c e (some opened) d p = p
alive-Delivers c e (some closing) d p = p

on_close-Delivers :
    (c : WsClient) (s jitter : ℕ) → IsDrained c → Delivers c (on_close s jitter c) []
unfolding on_close is_opened
on_close-Delivers c s jitter d =
    let p = set-Delivers c s closed (λ v. refl) d in
    then-Delivers c (record c { phases = JsMap.set s closed c.phases }) _ [] p
      (trigger_close-Delivers _ jitter p.0)

on_timer-Delivers : (c : WsClient) (b : Bool) (i : ℕ) → IsDrained c → Delivers c (on_timer b i c) []
unfolding on_timer open_socket_of messages
on_timer-Delivers c true i d = fire-Delivers (record c { timers = without_at i c.timers }) d
on_timer-Delivers c false i d = quiet c c (λ w e. e) refl refl d

step-Delivers : (c : WsClient) (e : Event) → IsDrained c → Delivers c (step c e) (handed c e)
unfolding step handed connect close reconnect send open_socket_of messages
step-Delivers c connects d = open_socket-Delivers (record c { closed_by_user = false }) d
step-Delivers c closes d = close_current-Delivers (record c { closed_by_user = true }) c.ws d
step-Delivers c reconnects d =
    let p = close_current-Delivers c c.ws d in
    then-Delivers c (close_current c.ws c)
      (open_socket (record (close_current c.ws c) { closed_by_user = false })) [] p
      (open_socket-Delivers (record (close_current c.ws c) { closed_by_user = false }) p.0)
step-Delivers c (sends msg) d = send_on-Delivers c msg _ refl d
step-Delivers c (opens s) d = opens-Delivers c s (JsMap.get s c.phases) d
step-Delivers c (hears s m) d = hears-Delivers c m (JsMap.get s c.phases) d
step-Delivers c (drops s jitter) d =
    alive-Delivers c _ (JsMap.get s c.phases) d (on_close-Delivers c s jitter d)
step-Delivers c (fails s) d =
    alive-Delivers c _ (JsMap.get s c.phases) d (close_socket-Delivers c s d)
step-Delivers c (fires i) d = on_timer-Delivers c _ i d

-- While nothing waits behind an open socket, which is so at first and stays so: after any sequence
-- of events, what was written and what still waits are together the messages from before and those
-- that the events handed over, in the same order.
pub run_keeps_messages :
    (es : List Event) (c : WsClient)
    → IsDrained c
    → IsDrained (run c es) × (messages (run c es) ≡ messages c ++ handed_all c es)
unfolding run handed_all
run_keeps_messages [] c d = (d, sym (append-nil (messages c)))
run_keeps_messages (e ∷ es) c d =
    let p = step-Delivers c e d in
    let q = run_keeps_messages es (step c e) p.0 in
    (
      q.0,
      ground (arith, q.1, p.1, append_assoc (messages c) (handed c e) (handed_all (step c e) es)),
    )
