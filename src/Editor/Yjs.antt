-- ===== src/Editor/Yjs.antt =====
-- `YjsRegistry` of apps/web/src/editor/yjs.ts: the documents of the blocks, and the deltas that came
-- before their block. A `Y.Doc` is a parameter, with `fresh` for a new one seeded with inline nodes
-- and `apply` for `Y.applyUpdate`. Observers are numbers; `calls` lists who was called, in order.
pub mod Early
use block_docs.Base.{
  ℕ, ◌+◌, ◌-◌, String, Bool, true, false, Option, none, some, get_or, List, [], ◌∷◌, ◌++◌, map, ite,
  ltb, if◌then◌else◌, string_discrete, string_key, ℕ_discrete,
}
use block_docs.JsMap
use block_docs.JsMap.{JsMap}
use block_docs.Types.{InlineNode}
use block_docs.Ws.Room.{add, remove}

pub record Buffered : Type 0 where
  pub delta : String
  pub ts : ℕ

pub data Origin : Type 0 where
  init local remote : Origin

abbrev pub buffer_ttl_ms : ℕ
buffer_ttl_ms = 1000

-- `handleUpdate`: the updates that are sent on.
unfoldable pub is_emitted : Origin → Bool
is_emitted init = false
is_emitted remote = false
is_emitted local = true

-- `now - ts > bufferTtlMs`; the clock does not run backwards.
unfoldable pub is_expired : ℕ → Buffered → Bool
is_expired now b = ltb buffer_ttl_ms (now - b.ts)

pub record YjsRegistry (Doc : Type 0) : Type 0 where
  pub blocks : JsMap String Doc
  pub observers : JsMap String (List ℕ)
  pub buffered_deltas : JsMap String (List Buffered)
  pub calls : List (ℕ × String)

module _ {Doc : Type 0} (fresh : List InlineNode → Doc) (apply : String → Doc → Doc) where
  notify : String → Option (List ℕ) → List (ℕ × String)
  notify id none = []
  notify id (some subs) = map (λ f. (f, id)) subs

  apply_or_buffer : ℕ → String → String → Option Doc → YjsRegistry Doc → YjsRegistry Doc
  unfolding notify JsMap.get JsMap.set
  apply_or_buffer now id delta none r = record r {
    buffered_deltas =
        JsMap.set id
          (get_or (JsMap.get id r.buffered_deltas) [] ++ record { delta = delta; ts = now } ∷ [])
          r.buffered_deltas;
  }
  apply_or_buffer now id delta (some doc) r = record r {
    blocks = JsMap.set id (apply delta doc) r.blocks;
    calls = r.calls ++ notify id (JsMap.get id r.observers);
  }

  -- The document is shared and updated in place, so its map entry is written.
  unfoldable pub apply_remote_delta : ℕ → String → String → YjsRegistry Doc → YjsRegistry Doc
  unfolding apply_or_buffer
  apply_remote_delta now id delta r = apply_or_buffer now id delta (JsMap.get id r.blocks) r

  -- The loop of `ensure` over the buffer.
  unfoldable pub flush : ℕ → String → List Buffered → YjsRegistry Doc → YjsRegistry Doc
  unfolding is_expired apply_remote_delta
  flush now id [] r = r
  flush now id (b ∷ buf) r =
      flush now id buf (if is_expired now b then r else apply_remote_delta now id b.delta r)

  unfoldable pub flush_found :
      ℕ → String → Option (List Buffered) → YjsRegistry Doc → YjsRegistry Doc
  unfolding flush JsMap.delete
  flush_found now id none r = r
  flush_found now id (some buf) r =
      let flushed = flush now id buf r in
      record flushed { buffered_deltas = JsMap.delete id flushed.buffered_deltas }

  unfoldable pub ensure_found :
      ℕ → String → List InlineNode → Option Doc → YjsRegistry Doc → YjsRegistry Doc
  unfolding flush_found JsMap.set JsMap.get
  ensure_found now id initial (some doc) r = r
  ensure_found now id initial none r =
      flush_found now id (JsMap.get id r.buffered_deltas)
        (record r { blocks = JsMap.set id (fresh initial) r.blocks })

  unfoldable pub ensure : ℕ → String → List InlineNode → YjsRegistry Doc → YjsRegistry Doc
  unfolding ensure_found
  ensure now id initial r = ensure_found now id initial (JsMap.get id r.blocks) r

module _ {Doc : Type 0} where
  abbrev pub empty : YjsRegistry Doc
  empty = record { blocks = []; observers = []; buffered_deltas = []; calls = [] }

  unfoldable pub destroy : String → YjsRegistry Doc → YjsRegistry Doc
  unfolding JsMap.delete
  destroy id r = record r {
    blocks = JsMap.delete id r.blocks;
    observers = JsMap.delete id r.observers;
    buffered_deltas = JsMap.delete id r.buffered_deltas;
  }

  unfoldable pub subscribe : String → ℕ → YjsRegistry Doc → YjsRegistry Doc
  unfolding add JsMap.get JsMap.set
  subscribe id fn r = record r {
    observers = JsMap.set id (add fn (get_or (JsMap.get id r.observers) [])) r.observers;
  }

  unfoldable pub clear : YjsRegistry Doc → YjsRegistry Doc
  clear r = record r { blocks = []; observers = []; buffered_deltas = [] }
