-- ===== src/Ws/Room/Pending.antt =====
-- The registry of apps/ws/src/room.ts while its commands to Redis are under way: `join` and `leave`
-- of several sockets interleave at their `await`s. A command is queued when it is sent, and Redis
-- answers the commands of one connection in their order. All commands succeed here.
pub mod Refines
use block_docs.Base.{
  ℕ, Bool, true, false, List, [], ◌∷◌, ◌++◌, Option, none, some, nat_key, ℕ_discrete,
}
use block_docs.JsMap
use block_docs.JsMap.{JsMap}
use block_docs.Ws.Room.{Registry, add, remove, or_no_one}

pub data Command : Type 0 where
  subscribes unsubscribes : (doc : ℕ) → Command

pub record Busy : Type 0 where
  pub rooms : JsMap ℕ (List ℕ)
  pub channels : List ℕ
  pub under_way : List Command

-- What a command does to the channels when it is answered.
unfoldable pub obey : Command → List ℕ → List ℕ
unfolding add remove
obey (subscribes doc) channels = add doc channels
obey (unsubscribes doc) channels = remove doc channels

-- `if (wasEmpty) await this.subscriber.subscribe(…)`
commands_of_join : List ℕ → ℕ → List Command
commands_of_join [] doc = subscribes doc ∷ []
commands_of_join (x ∷ before) doc = []

-- The part of `join` up to its `await`.
unfoldable pub begin_join : ℕ → ℕ → Busy → Busy
unfolding add commands_of_join JsMap.get JsMap.set ℕ_discrete
begin_join doc ws b =
    let before = or_no_one (JsMap.get doc b.rooms) in
    record b {
      rooms = JsMap.set doc (add ws before) b.rooms;
      under_way = b.under_way ++ commands_of_join before doc;
    }

sends_nothing : List Command → Bool
sends_nothing [] = true
sends_nothing (c ∷ cs) = false

-- Whether `join` goes on at once; otherwise it waits for the answer to its command.
unfoldable pub is_immediate : ℕ → Busy → Bool
unfolding commands_of_join sends_nothing JsMap.get
is_immediate doc b = sends_nothing (commands_of_join (or_no_one (JsMap.get doc b.rooms)) doc)

shrink_busy : ℕ → List ℕ → Busy → Busy
unfolding JsMap.delete JsMap.set
shrink_busy doc [] b = record b {
  rooms = JsMap.delete doc b.rooms;
  under_way = b.under_way ++ unsubscribes doc ∷ [];
}
shrink_busy doc (x ∷ set) b = record b { rooms = JsMap.set doc (x ∷ set) b.rooms }

leave_busy : Option (List ℕ) → ℕ → ℕ → Busy → Busy
unfolding shrink_busy remove
leave_busy none doc ws b = b
leave_busy (some set) doc ws b = shrink_busy doc (remove ws set) b

-- The part of `leave` up to its `await`.
unfoldable pub begin_leave : ℕ → ℕ → Busy → Busy
unfolding leave_busy JsMap.get
begin_leave doc ws b = leave_busy (JsMap.get doc b.rooms) doc ws b

next_of : List Command → Busy → Busy
unfolding obey
next_of [] b = b
next_of (c ∷ cs) b = record b { channels = obey c b.channels; under_way = cs }

-- Redis answers the oldest command.
unfoldable pub answer_next : Busy → Busy
unfolding next_of
answer_next b = next_of b.under_way b

pub data Event : Type 0 where
  joins leaves : (doc ws : ℕ) → Event
  answers : Event

unfoldable pub step : Busy → Event → Busy
unfolding begin_join begin_leave answer_next
step b (joins doc ws) = begin_join doc ws b
step b (leaves doc ws) = begin_leave doc ws b
step b answers = answer_next b

-- The last event is the head.
unfoldable pub run : List Event → Busy
unfolding step
run [] = record { rooms = []; channels = []; under_way = [] }
run (e ∷ es) = step (run es) e
