-- ===== src/Types.antt =====
-- apps/web/src/lib/types.ts: the data that the editor, the store and the wire share.
-- A field `x?: T` is an `Option`. A `Record<string, unknown>` is a map to JSON values, which the
-- program carries without looking into them; a number outside ℕ is kept as its text. The `payload`
-- of an operation has the shape that the store casts it to.
use block_docs.Base.{ℕ, String, Bool, Option, List}
use block_docs.JsMap.{JsMap}
use block_docs.Text.{Text}

pub data BlockType : Type 0 where
  paragraph heading code blockquote divider image : BlockType
  bulleted_list numbered_list todo callout : BlockType

pub data MarkType : Type 0 where
  bold italic strike code link comment : MarkType

mutual
  pub data Json : Type 0 where
    null : Json
    bool : Bool → Json
    num : ℕ → Json
    real : String → Json
    str : String → Json
    arr : Items → Json
    obj : Fields → Json

  pub data Items : Type 0 where
    nil : Items
    cons : Json → Items → Items

  pub data Fields : Type 0 where
    end : Fields
    field : String → Json → Fields → Fields

abbrev pub Attrs : Type 0
Attrs = JsMap String Json

pub record Mark : Type 0 where
  pub type : MarkType
  pub attrs : Option Attrs

pub record Mention : Type 0 where
  pub user_id : ℕ
  pub label : Text

pub data InlineNode : Type 0 where
  text : Text → Option (List Mark) → InlineNode
  mention : Mention → InlineNode

pub record BlockContent : Type 0 where
  pub children : Option (List InlineNode)
  pub attrs : Option Attrs

pub record Block : Type 0 where
  pub block_id : String
  pub parent_id : Option String
  pub position : Text
  pub depth : ℕ
  pub type : BlockType
  pub content : BlockContent
  pub version : ℕ

pub data Payload : Type 0 where
  insert_block :
      (type : BlockType) (parent_id after_id : Option String) (content : Option BlockContent)
      (position : Text)
      → Payload
  delete_block : Payload
  move_block : (parent_id after_id : Option String) (position : Text) → Payload
  update_attrs : Attrs → Payload
  update_content : BlockContent → Payload

pub record BlockOperation : Type 0 where
  pub block_id : String
  pub payload : Payload
  pub version : Option ℕ

pub data Status : Type 0 where
  applied conflict : Status

pub record OpResult : Type 0 where
  pub block_id : String
  pub new_version : ℕ
  pub status : Status
  pub current : Option Block

pub record Conflict : Type 0 where
  pub block_id : String
  pub reason : String
  pub current : Option Block

pub record Cursor : Type 0 where
  pub block_id : String
  pub offset : ℕ

pub record AwarenessState : Type 0 where
  pub focused_block_id : Option String
  pub cursor : Option Cursor

pub record AwarenessEntry : Type 0 where
  pub user_id : ℕ
  pub state : AwarenessState
  pub color : String
  pub name : String
