-- ===== src/Ws/Tests.antt =====
-- Runs of the WebSocket server's parts, and the theorems about them at concrete input.
use mathlib.Core.Bool.{false≢true}
use text.Mathlib.TextEquality.{eq_iff}
use block_docs.Base.{
  ℕ, Option, arith, ◌≡◌, refl, String, Bool, true, false, none, some, [], ◌∷◌, map, string_discrete,
  ℕ_discrete, nat_key, string_key,
}
use block_docs.Text.{codes}
use block_docs.JsMap
use block_docs.Types.{BlockOperation, delete_block}
use block_docs.Store.{BlockStoreState, initial}
use block_docs.Store.Queue.{enqueue_ops}
use block_docs.Store.Invariant.Step.{initial-IsConsistent}
use block_docs.Store.Invariant.Answers.{waits}
use block_docs.Ws.Protocol.{ClientMessage, ServerMessage}
use mathlib.Core.Option
use block_docs.Ws.Config.{Env, EnvNumber, natural, Config, load_config}
use block_docs.Ws.Room.{Registry, join, members, contains}
use block_docs.Ws.Room.Laws.{IsServing, join-IsServing}
use block_docs.Ws.Room.Broadcast.{received}
use block_docs.Ws.Room.Failure.{IsDeaf, join_all, join_failed_sticks}
use block_docs.Ws.StreamId.{compare_stream_ids}
use block_docs.Ws.Replay.{Entry, Codec, first, is_trimmed, run_replay}
use block_docs.Ws.Replay.Fields.{crdt_fields}
use block_docs.Ws.Replay.Complete.{frames, replayed}
use block_docs.Ws.Replay.Trim.{entries_after, run_replay_complete}
use block_docs.Ws.Bus.{value_from}
use block_docs.Ws.Handlers.{Context}
use block_docs.Ws.Handlers.Crdt.{Library, added, handle_crdt, is_valid_base64_non_empty}
use block_docs.Ws.Handlers.Crdt.Fanout.{heard, stored, handle_crdt_reaches}
use block_docs.Ws.Handlers.Ops.{network_error, response, handle_ops}
use block_docs.Ws.Handlers.Ops.Client.{hear_all, is_ack, handle_ops_answers, handle_ops_unreachable}
use block_docs.Ws.Server.Dispatch.{Services, on_client_message, on_client_message_isolated}
use block_docs.Ws.Server.Heartbeat
use block_docs.Ws.Server.Heartbeat.{Clients, terminated, pinged, pongs, terminated_silent}
use block_docs.Ws.Server.Lifecycle.{
  Connection, Server, accepts, joins, closes, replaying, step, run, run-IsServing, closes_leaves,
}

abbrev empty : Registry
empty = record { rooms = []; channels = [] }

empty-IsServing : IsServing empty
unfolding members contains JsMap.get
empty-IsServing = record {
  distinct = tt;
  channels = tt;
  sockets = λ doc. tt;
  subscribed = λ doc. refl;
}

abbrev one : Registry
one = (join 5 1 true empty).0

one-IsServing : IsServing one
one-IsServing = (join-IsServing 5 1 empty empty-IsServing).0

abbrev two : Registry
two = record { rooms = (5, 1 ∷ 2 ∷ []) ∷ []; channels = 5 ∷ [] }

abbrev all_open : ℕ → Bool
all_open ws = true

abbrev done : ServerMessage
done = ServerMessage.replay_done "1-0"

join_failed_sticks_example :
    ((join 5 1 false empty).1 ≡ false)
    × IsDeaf 5 (join_all 5 ((2, true) ∷ []) (join 5 1 false empty).0)
unfolding members contains
join_failed_sticks_example = join_failed_sticks 5 1 ((2, true) ∷ []) empty refl refl

abbrev codec : Codec
codec = record {
  big_int = λ s. some (value_from 0 s);
  number = λ s. some (value_from 0 (codes s));
  parse_ops = λ s. some [];
}

abbrev entry : String → Entry
entry id = record { id = id; fields = crdt_fields "b" "AA==" "7" }

kept_all : is_trimmed codec (first "10-0") "10-0" ≡ false
unfolding is_trimmed compare_stream_ids value_from
kept_all = refl

run_replay_complete_example :
    run_replay codec true "10-0"
      (first "10-0")
      (some (entries_after codec "10-0" (entry "10-0" ∷ entry "10-2" ∷ [])))
    ≡ replayed codec "10-0"
        (entries_after codec "10-0" (entry "9-1" ∷ entry "10-0" ∷ entry "10-2" ∷ []))
unfolding compare_stream_ids value_from
run_replay_complete_example =
    run_replay_complete codec "10-0" (entry "9-1" ∷ []) (entry "10-2" ∷ []) (entry "10-0")
      ((refl, (refl, tt)), ((refl, tt), (tt, tt))) (λ e. false≢true ((eq_iff "10-0" "0-0").1 e))
      (λ e. cc) kept_all

abbrev library : Library
library = record { from_base64 = λ s. s; to_base64 = λ s. s; print = λ n. "7" }

abbrev sender : Context
sender = record { socket = 1; doc_id = 5; user_id = 7 }

abbrev delta_frame : ServerMessage
delta_frame = ServerMessage.crdt "b" "AA==" (some 7) "10-2"

handle_crdt_reaches_example :
    let effects = handle_crdt library "ws-a" 1000 all_open sender "b" "AA==" (added "10-2") two in
    (received 2 effects.written ≡ delta_frame ∷ [])
    × (received 2 (heard "ws-b" all_open two effects.published) ≡ delta_frame ∷ [])
    × (frames codec (stored "10-2" effects.append) ≡ delta_frame ∷ [])
unfolding is_valid_base64_non_empty value_from members contains string_discrete
handle_crdt_reaches_example =
    handle_crdt_reaches library codec "ws-a" "ws-b" 1000 all_open sender "b" "AA==" "10-2" two two 2
      refl (λ e. false≢true ((eq_iff "ws-a" "").1 e)) (λ e. false≢true ((eq_iff "10-2" "").1 e))
      (λ e. false≢true ((eq_iff "b" "").1 e)) refl (refl, (refl, tt)) (refl, (refl, tt))

abbrev op : BlockOperation
op = record { block_id = "b"; payload = delete_block; version = none }

abbrev waiting_one : BlockStoreState
waiting_one = (enqueue_ops (op ∷ []) initial).0

abbrev api_error : ℕ → String
api_error status = "api_error"

handle_ops_answers_example :
    (map is_ack (handle_ops api_error true 1 (op ∷ []) (response 409 none)) ≡ false ∷ [])
    × (waits 1 (hear_all (handle_ops api_error true 1 (op ∷ []) (response 409 none)) waiting_one)
        ≡ none)
unfolding ℕ_discrete
handle_ops_answers_example =
    handle_ops_answers api_error 1 1 (op ∷ []) (response 409 none) waiting_one

handle_ops_unreachable_example :
    JsMap.get "b" (hear_all (handle_ops api_error true 1 (op ∷ []) network_error) initial).blocks
    ≡ none
handle_ops_unreachable_example =
    handle_ops_unreachable api_error 1 op [] initial initial-IsConsistent

abbrev number_of : String → Option ℕ
number_of s = some (value_from 0 (codes s))

abbrev started : Server
started = record { registry = empty; connections = [] }

run-IsServing_example :
    IsServing (run started (accepts 1 5 none true ∷ joins 1 ∷ closes 1 true ∷ [])).registry
run-IsServing_example =
    run-IsServing (accepts 1 5 none true ∷ joins 1 ∷ closes 1 true ∷ []) started
      (refl, (tt, (refl, tt))) empty-IsServing

abbrev late : Connection
late = record { doc_id = 5; since = some "5-0"; stage = replaying }

abbrev busy : Server
busy = record { registry = one; connections = (1, late) ∷ [] }

closes_leaves_example : contains 1 (members 5 (step busy (closes 1 true)).registry) ≡ true
unfolding members contains join
closes_leaves_example = closes_leaves busy 1 late one-IsServing refl refl

-- The first socket answers, the second does not.
abbrev clients : Clients
clients = (1, true) ∷ (2, true) ∷ []

terminated_silent_example :
    contains 2 (terminated (Heartbeat.run (pinged clients) (pongs 1 ∷ []))) ≡ true
unfolding JsMap.get ℕ_discrete Heartbeat.has_answered
terminated_silent_example =
    terminated_silent 2 (pongs 1 ∷ []) clients true (refl, (refl, tt)) refl (tt, tt)

abbrev services : Services
services = record {
  library = library;
  api_error = api_error;
  instance_id = "ws-a";
  stream_max_len = 1000;
  xadd = added "10-2";
  api = response 409 none;
}

on_client_message_isolated_example :
    received 9
      (on_client_message services all_open sender (some (ClientMessage.crdt "b" "AA==")) two)
    ≡ []
unfolding members contains
on_client_message_isolated_example =
    on_client_message_isolated services all_open sender (some (ClientMessage.crdt "b" "AA==")) two 9
      (λ e. absurd (omega (arith, e))) refl

-- The port of an environment that is handed to `loadConfig` is not looked at.
abbrev handed : Env
handed name = some "5000"

abbrev integers : String → Option EnvNumber
integers raw = some (natural 5000)

handed_port :
    Option.map (λ (c : Config). c.port) (load_config integers (λ name. none) handed)
    ≡ some (natural 4000)
unfolding load_config
handed_port = refl
