-- ===== src/Ws/Server/Lifecycle.antt =====
-- The listener for `connection` of apps/ws/src/server.ts, as steps between its awaits: the call of
-- `join`, the end of its promise, the end of the replay, and the socket's close event. The handlers
-- for messages and for closing are registered only when the last of these is behind.
use block_docs.Base.{
  ℕ, ◌≡◌, ◌∙◌, ap, String, Bool, true, false, not, Option, none, some, List, [], ◌∷◌, nat_key, All,
}
use block_docs.JsMap
use block_docs.JsMap.{JsMap}
use block_docs.Ws.Room.{Registry, join, leave, members, contains}
use block_docs.Ws.Room.Laws.{IsServing, join-IsServing, leave-IsServing}

-- `ready` has its handlers; `abandoned` is a socket that the listener has closed and returned from.
pub data Stage : Type 0 where
  joining : (ok : Bool) → Stage
  replaying ready abandoned gone : Stage

pub record Connection : Type 0 where
  pub doc_id : ℕ
  pub since : Option String
  pub stage : Stage

pub record Server : Type 0 where
  pub registry : Registry
  pub connections : JsMap ℕ Connection

-- How a replay ends: it fails, closes the socket of a trimmed cursor, or completes.
pub data ReplayEnd : Type 0 where
  failed trimmed completed : ReplayEnd

pub data Event : Type 0 where
  accepts : (socket doc : ℕ) → Option String → (ok : Bool) → Event
  joins : (socket : ℕ) → Event
  replays : (socket : ℕ) → ReplayEnd → Event
  closes : (socket : ℕ) → (ok : Bool) → Event

after_join : Option String → Stage → Stage
after_join none (joining true) = ready
after_join (some id) (joining true) = replaying
after_join since (joining false) = abandoned
after_join since stage = stage

after_replay : ReplayEnd → Stage → Stage
after_replay completed replaying = ready
after_replay _ replaying = abandoned
after_replay _ stage = stage

update : (Connection → Stage) → ℕ → Option Connection → Server → Server
unfolding JsMap.set
update f s none v = v
update f s (some c) v = record v {
  connections = JsMap.set s (record c { stage = f c }) v.connections;
}

-- The close event: without its handler nothing is done.
unfoldable pub close_registry : Stage → ℕ → ℕ → Bool → Registry → Registry
unfolding leave
close_registry ready doc s ok r = leave doc s ok r
close_registry _ doc s ok r = r

close_found : ℕ → Bool → Option Connection → Server → Server
unfolding close_registry JsMap.set
close_found s ok none v = v
close_found s ok (some c) v = record {
  registry = close_registry c.stage c.doc_id s ok v.registry;
  connections = JsMap.set s (record c { stage = gone }) v.connections;
}

unfoldable pub step : Server → Event → Server
unfolding update close_found after_join after_replay join JsMap.get JsMap.set
step v (accepts s doc since ok) = record {
  registry = (join doc s ok v.registry).0;
  connections =
      JsMap.set s (record { doc_id = doc; since = since; stage = joining ok }) v.connections;
}
step v (joins s) = update (λ c. after_join c.since c.stage) s (JsMap.get s v.connections) v
step v (replays s end) = update (λ c. after_replay end c.stage) s (JsMap.get s v.connections) v
step v (closes s ok) = close_found s ok (JsMap.get s v.connections) v

unfoldable pub run : Server → List Event → Server
unfolding step
run v [] = v
run v (e ∷ es) = run (step v e) es

abbrev pub is_ready : Stage → Bool
is_ready ready = true
is_ready _ = false

-- The commands to Redis succeed.
abbrev pub IsHealthy : Event → Type 0
IsHealthy (accepts s doc since ok) = ok ≡ true
IsHealthy (closes s ok) = ok ≡ true
IsHealthy e = Unit

close_registry-IsServing :
    (stage : Stage) (doc s : ℕ) (r : Registry)
    → IsServing r
    → IsServing (close_registry stage doc s true r)
unfolding close_registry
close_registry-IsServing ready doc s r h = (leave-IsServing doc s r h).0
close_registry-IsServing stage doc s r h = h

update-IsServing :
    (f : Connection → Stage) (s : ℕ) (o : Option Connection) (v : Server)
    → IsServing v.registry
    → IsServing (update f s o v).registry
unfolding update
update-IsServing f s none v h = h
update-IsServing f s (some c) v h = h

close_found-IsServing :
    (s : ℕ) (o : Option Connection) (v : Server)
    → IsServing v.registry
    → IsServing (close_found s true o v).registry
unfolding close_found
close_found-IsServing s none v h = h
close_found-IsServing s (some c) v h = close_registry-IsServing c.stage c.doc_id s v.registry h

step-IsServing :
    (v : Server) (e : Event) → IsHealthy e → IsServing v.registry → IsServing (step v e).registry
unfolding step
step-IsServing v (accepts s doc since true) a h = (join-IsServing doc s v.registry h).0
step-IsServing v (accepts s doc since false) a h = cc
step-IsServing v (joins s) a h = update-IsServing _ s (JsMap.get s v.connections) v h
step-IsServing v (replays s end) a h = update-IsServing _ s (JsMap.get s v.connections) v h
step-IsServing v (closes s true) a h = close_found-IsServing s (JsMap.get s v.connections) v h
step-IsServing v (closes s false) a h = cc

-- While the commands to Redis succeed, connections that come, replay and go in any order keep the
-- registry subscribed to exactly the channels of the documents that have a socket in their room.
pub run-IsServing :
    (es : List Event) (v : Server)
    → All IsHealthy es
    → IsServing v.registry
    → IsServing (run v es).registry
unfolding run
run-IsServing [] v a h = h
run-IsServing (e ∷ es) v a h = run-IsServing es (step v e) a.1 (step-IsServing v e a.0 h)

closed_stays :
    (stage : Stage) (doc s : ℕ) (r : Registry)
    → IsServing r
    → contains s (members doc r) ≡ true
    → contains s (members doc (close_registry stage doc s true r)) ≡ not (is_ready stage)
unfolding close_registry
closed_stays ready doc s r h m = (leave-IsServing doc s r h).1
closed_stays stage doc s r h m = m

-- A socket in the room of its document that closes is out of the room exactly if its handlers were
-- registered: one that closes while it joins or replays, or that was closed by the listener after a
-- failed or trimmed replay, stays in.
pub closes_leaves :
    (v : Server) (s : ℕ) (c : Connection)
    → IsServing v.registry
    → JsMap.get s v.connections ≡ some c
    → contains s (members c.doc_id v.registry) ≡ true
    → contains s (members c.doc_id (step v (closes s true)).registry) ≡ not (is_ready c.stage)
unfolding step close_found
closes_leaves v s c h g m =
    ap (λ o. contains s (members c.doc_id (close_found s true o v).registry)) g
    ∙ closed_stays c.stage c.doc_id s v.registry h m
