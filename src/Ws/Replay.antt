-- ===== src/Ws/Replay.antt =====
-- `runReplay` of apps/ws/src/replay.ts. The answers of Redis are arguments: that of XINFO, and that
-- of XRANGE from behind the cursor, `none` where the promise fails. So are `BigInt`, `Number` and
-- `JSON.parse` of the operations.
pub mod Complete
pub mod Trim
pub mod Fields
use block_docs.Base.{
  ℕ, ◌+◌, ◌≡◌, ◌≢◌, String, Bool, true, false, Option, none, some, get_or, List, [], ◌∷◌, ◌++◌, ite,
  string_discrete, string_key,
}
use block_docs.Text.{Text, codes}
use block_docs.JsMap
use block_docs.JsMap.{JsMap}
use block_docs.Types.{BlockOperation}
use block_docs.Ws.Protocol.{ServerMessage, UserNumber}
use block_docs.Ws.StreamId.{Sign, above, same, below, compare_stream_ids}

pub record Entry : Type 0 where
  pub id : String
  pub fields : List String

-- The `first-entry` of XINFO STREAM: the command fails, has none, or gives its id.
pub data XInfo : Type 0 where
  failed nothing : XInfo
  first : String → XInfo

fields_from : JsMap String String → List String → JsMap String String
fields_from out (k ∷ v ∷ rest) = fields_from (JsMap.set k v out) rest
fields_from out _ = out

unfoldable pub fields_to_map : List String → JsMap String String
unfolding fields_from JsMap.set string_discrete
fields_to_map fields = fields_from [] fields

unfoldable pub field : String → Entry → Option String
unfolding fields_to_map JsMap.get string_discrete
field name e = JsMap.get name (fields_to_map e.fields)

-- A value that is not falsy: not missing, and not empty.
unfoldable pub truthy : Option String → Option String
unfolding string_discrete
truthy none = none
truthy (some s) = ite (string_discrete s "") none (some s)

-- What the loop does with an entry: `continue`, go on to the cursor's update, or send first.
pub data Outcome : Type 0 where
  skips advances : Outcome
  sends : ServerMessage → Outcome

crdt_frame : UserNumber → String → Option String → Option String → Outcome
crdt_frame user id (some block_id) (some delta) = sends (ServerMessage.crdt block_id delta user id)
crdt_frame user id _ _ = skips

ops_frame : UserNumber → String → Option (List BlockOperation) → Outcome
ops_frame user id none = advances
ops_frame user id (some ops) = sends (ServerMessage.remote_ops ops user id)

pub record Codec : Type 0 where
  pub big_int : Text → Option ℕ
  pub number : String → UserNumber
  pub parse_ops : String → Option (List BlockOperation)

pub record Result : Type 0 where
  pub trimmed : Bool
  pub last_stream_id : String
  pub frames_sent : ℕ

-- What a run leaves behind: the frames written, the close code if the socket was closed, and the
-- result, `none` where the promise fails.
pub record Run : Type 0 where
  pub written : List ServerMessage
  pub closed : Option ℕ
  pub result : Option Result

abbrev pub reload_required_close_code : ℕ
reload_required_close_code = 4001

-- `sendFrame`: nothing is written to a socket that is not open.
unfoldable pub send_frame : Bool → ServerMessage → List ServerMessage → List ServerMessage
send_frame true frame written = written ++ frame ∷ []
send_frame false frame written = written

module _ (c : Codec) where
  frame_of_kind : Option String → UserNumber → Entry → Outcome
  frame_of_kind none user e = advances
  frame_of_kind (some kind) user e =
      ite (string_discrete kind "crdt")
        (crdt_frame user e.id (truthy (field "blockId" e)) (truthy (field "delta" e)))
        (ite (string_discrete kind "ops")
          (ops_frame user e.id (c.parse_ops (get_or (field "ops" e) "[]"))) advances)

  unfoldable pub outcome : Entry → Outcome
  unfolding frame_of_kind field truthy crdt_frame ops_frame string_discrete
  outcome e = frame_of_kind (field "kind" e) (c.number (get_or (field "userId" e) "0")) e

  -- One round of the loop: the cursor, the count and what was written.
  pub record Loop : Type 0 where
    pub last : String
    pub count : ℕ
    pub written : List ServerMessage

  round : Bool → Outcome → String → Loop → Loop
  round is_open skips id s = s
  round is_open advances id s = record s { last = id }
  round is_open (sends frame) id s = record {
    last = id;
    count = s.count + 1;
    written = send_frame is_open frame s.written;
  }

  unfoldable pub walk : Bool → List Entry → Loop → Loop
  unfolding round outcome send_frame
  walk is_open [] s = s
  walk is_open (e ∷ entries) s = walk is_open entries (round is_open (outcome e) e.id s)

  is_above : Option Sign → Bool
  is_above (some above) = true
  is_above _ = false

  -- The test of the retention boundary; a failure inside it is logged and ignored.
  trim_test : XInfo → String → Bool
  trim_test (first id) since = is_above (compare_stream_ids c.big_int (codes id) (codes since))
  trim_test _ since = false

  unfoldable pub is_trimmed : XInfo → String → Bool
  unfolding trim_test is_above compare_stream_ids string_discrete
  is_trimmed info since = ite (string_discrete since "0-0") false (trim_test info since)

  finish : Bool → Loop → Run
  finish is_open s = record {
    written = send_frame is_open (ServerMessage.replay_done s.last) s.written;
    closed = none;
    result = some (record { trimmed = false; last_stream_id = s.last; frames_sent = s.count });
  }

  replay_from : Bool → String → Option (List Entry) → Run
  replay_from is_open since none = record { written = []; closed = none; result = none }
  replay_from is_open since (some entries) =
      finish is_open (walk is_open entries (record { last = since; count = 0; written = [] }))

  unfoldable pub run_replay : Bool → String → XInfo → Option (List Entry) → Run
  unfolding is_trimmed replay_from finish walk send_frame
  run_replay is_open since info range = elim (is_trimmed info since) [
    | true ↦ record {
      written = send_frame is_open (ServerMessage.reload_required "stream_trimmed") [];
      closed = some reload_required_close_code;
      result = some (record { trimmed = true; last_stream_id = since; frames_sent = 0 });
    }
    | false ↦ replay_from is_open since range
  ]
