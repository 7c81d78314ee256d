-- ===== src/Ws/Protocol.antt =====
-- apps/ws/src/protocol.ts: the frames of the wire. A `BlockOperation` is forwarded as it came, so it
-- is the client's. `clientSeq` and other numbers are natural numbers, as the schemas demand.
pub mod Schema
mod Tests
use block_docs.Base.{ℕ, String, Option, List}
use block_docs.Types.{Block, BlockOperation, OpResult, AwarenessState}

-- `userId` of a replayed entry is `Number` of a text: `none` stands for `NaN`.
abbrev pub UserNumber : Type 0
UserNumber = Option ℕ

pub data ClientMessage : Type 0 where
  ops : (client_seq : ℕ) → List BlockOperation → ClientMessage
  crdt : (block_id delta : String) → ClientMessage
  awareness : AwarenessState → ClientMessage

pub record ConflictInfo : Type 0 where
  pub block_id : String
  pub reason : Option String
  pub current : Option Block

pub record AwarenessInfo : Type 0 where
  pub user_id : ℕ
  pub state : AwarenessState
  pub color : String
  pub name : String

pub data ServerMessage : Type 0 where
  hello : (user_id : ℕ) (last_stream_id : String) → ServerMessage
  ack : (client_seq : ℕ) → List OpResult → ServerMessage
  nack : (client_seq : ℕ) → List ConflictInfo → ServerMessage
  remote_ops : List BlockOperation → UserNumber → (stream_id : String) → ServerMessage
  crdt : (block_id delta : String) → UserNumber → (stream_id : String) → ServerMessage
  awareness : List AwarenessInfo → ServerMessage
  replay_done : (stream_id : String) → ServerMessage
  reload_required : (reason : String) → ServerMessage

-- The envelope on the bus `doc:{docId}:bus`. Both fields can be missing in what is received.
pub record BusEnvelope : Type 0 where
  pub origin_instance : Option String
  pub frame : Option ServerMessage
