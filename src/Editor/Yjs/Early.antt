-- ===== src/Editor/Yjs/Early.antt =====
-- Deltas that reach apps/web/src/editor/yjs.ts before the block that they are for.
use block_docs.Base.{
  ℕ, ◌≡◌, refl, sym, ap, ◌∙◌, String, Bool, true, false, Option, none, some, get_or, List, [], ◌∷◌,
  ◌++◌, if_pos, if◌then◌else◌, append_assoc, append-nil, string_discrete, string_key,
}
use block_docs.JsMap
use block_docs.JsMap.{IsDistinct}
use block_docs.JsMap.Laws.{get-set}
use block_docs.Types.{InlineNode}
use block_docs.Editor.Yjs.{
  Buffered, YjsRegistry, apply_or_buffer, apply_remote_delta, is_expired, flush, flush_found,
  ensure_found, ensure,
}

-- The deltas that are young enough.
unfoldable pub live : ℕ → List Buffered → List Buffered
live now [] = []
live now (b ∷ buf) = if is_expired now b then live now buf else b ∷ live now buf

module _ {Doc : Type 0} (fresh : List InlineNode → Doc) (apply : String → Doc → Doc) where
  -- Deltas for one block, each at its time.
  unfoldable pub receive_all : String → List Buffered → YjsRegistry Doc → YjsRegistry Doc
  receive_all id [] r = r
  receive_all id (b ∷ ds) r = receive_all id ds (apply_remote_delta fresh apply b.ts id b.delta r)

  unfoldable pub apply_all : List Buffered → Doc → Doc
  apply_all [] doc = doc
  apply_all (b ∷ ds) doc = apply_all ds (apply b.delta doc)

  doc-applied :
      (now : ℕ) (id delta : String) (d : Doc) (r : YjsRegistry Doc)
      → JsMap.get id r.blocks ≡ some d
      → JsMap.get id (apply_remote_delta fresh apply now id delta r).blocks ≡ some (apply delta d)
  unfolding apply_remote_delta apply_or_buffer
  doc-applied now id delta d r e =
      ap (λ o. JsMap.get id (apply_or_buffer fresh apply now id delta o r).blocks) e
      ∙ get-set id id (apply delta d) r.blocks
      ∙ if_pos (string_discrete id id) refl _ _

  doc-receive_all :
      (id : String) (ds : List Buffered) (d : Doc) (r : YjsRegistry Doc)
      → JsMap.get id r.blocks ≡ some d
      → JsMap.get id (receive_all id ds r).blocks ≡ some (apply_all ds d)
  unfolding receive_all apply_all
  doc-receive_all id [] d r e = e
  doc-receive_all id (b ∷ ds) d r e =
      doc-receive_all id ds (apply b.delta d) (apply_remote_delta fresh apply b.ts id b.delta r)
        (doc-applied b.ts id b.delta d r e)

  doc-flush :
      (now : ℕ) (id : String) (buf : List Buffered) (d : Doc) (r : YjsRegistry Doc)
      → JsMap.get id r.blocks ≡ some d
      → JsMap.get id (flush fresh apply now id buf r).blocks ≡ some (apply_all (live now buf) d)
  unfolding flush live apply_all
  doc-flush now id [] d r e = e
  doc-flush now id (b ∷ buf) d r e = tested (is_expired now b) (doc-flush now id buf d r e) (
      doc-flush now id buf (apply b.delta d) (apply_remote_delta fresh apply now id b.delta r)
        (doc-applied now id b.delta d r e))
    where
      tested :
          (t : Bool)
          → JsMap.get id (flush fresh apply now id buf r).blocks ≡ some (apply_all (live now buf) d)
          → JsMap.get id
              (flush fresh apply now id buf
                (apply_remote_delta fresh apply now id b.delta r)).blocks
            ≡ some (apply_all (live now buf) (apply b.delta d))
          → JsMap.get id
              (flush fresh apply now id buf
                (if t then r else apply_remote_delta fresh apply now id b.delta r)).blocks
            ≡ some (apply_all (if t then live now buf else b ∷ live now buf) d)
      tested true p q = p
      tested false p q = q

  buffered-applied :
      (now : ℕ) (id delta : String) (r : YjsRegistry Doc)
      → JsMap.get id r.blocks ≡ none
      → let r' = apply_remote_delta fresh apply now id delta r in
        (JsMap.get id r'.blocks ≡ none)
        × (get_or (JsMap.get id r'.buffered_deltas) []
            ≡ get_or (JsMap.get id r.buffered_deltas) [] ++ record { delta = delta; ts = now } ∷ [])
  unfolding apply_remote_delta apply_or_buffer
  buffered-applied now id delta r e =
      let old = get_or (JsMap.get id r.buffered_deltas) [] in
      let b : Buffered = record { delta = delta; ts = now } in
      (
        ap (λ o. JsMap.get id (apply_or_buffer fresh apply now id delta o r).blocks) e ∙ e,
        ap
              (λ o.
                get_or (JsMap.get id (apply_or_buffer fresh apply now id delta o r).buffered_deltas)
                  [])
              e
            ∙ ap (λ o. get_or o [])
                (get-set id id (old ++ b ∷ []) r.buffered_deltas
                  ∙ if_pos (string_discrete id id) refl _ _),
      )

  buffered-receive_all :
      (id : String) (ds : List Buffered) (r : YjsRegistry Doc)
      → JsMap.get id r.blocks ≡ none
      → (JsMap.get id (receive_all id ds r).blocks ≡ none)
        × (get_or (JsMap.get id (receive_all id ds r).buffered_deltas) []
            ≡ get_or (JsMap.get id r.buffered_deltas) [] ++ ds)
  unfolding receive_all apply_remote_delta
  buffered-receive_all id [] r e = (e, sym (append-nil _))
  buffered-receive_all id (b ∷ ds) r e =
      let q = buffered-applied b.ts id b.delta r e in
      let p = buffered-receive_all id ds (apply_remote_delta fresh apply b.ts id b.delta r) q.0 in
      (
        p.0,
        p.1
            ∙ ap (λ l. l ++ ds) q.1
            ∙ append_assoc (get_or (JsMap.get id r.buffered_deltas) []) (b ∷ []) ds,
      )

  doc-flush_found :
      (now : ℕ) (id : String) (o : Option (List Buffered)) (d : Doc) (r : YjsRegistry Doc)
      → JsMap.get id r.blocks ≡ some d
      → JsMap.get id (flush_found fresh apply now id o r).blocks
        ≡ some (apply_all (live now (get_or o [])) d)
  unfolding flush_found live apply_all
  doc-flush_found now id none d r e = e
  doc-flush_found now id (some buf) d r e = doc-flush now id buf d r e

  doc-ensure :
      (now : ℕ) (id : String) (initial : List InlineNode) (r : YjsRegistry Doc)
      → JsMap.get id r.blocks ≡ none
      → JsMap.get id (ensure fresh apply now id initial r).blocks
        ≡ some (apply_all (live now (get_or (JsMap.get id r.buffered_deltas) [])) (fresh initial))
  unfolding ensure ensure_found
  doc-ensure now id initial r e =
      ap (λ o. JsMap.get id (ensure_found fresh apply now id initial o r).blocks) e
      ∙ doc-flush_found now id (JsMap.get id r.buffered_deltas) (fresh initial)
          (record r { blocks = JsMap.set id (fresh initial) r.blocks })
          (get-set id id (fresh initial) r.blocks ∙ if_pos (string_discrete id id) refl _ _)

  -- For a block that is not known and for which nothing waits: any number of deltas that come before
  -- `ensure` are kept until then, whenever that is, and applied by it to the new document in their
  -- order, those that are then older than the time to live left out;
  -- deltas that come after it are all applied, in their order.
  pub ensure-receive_all :
      (now : ℕ) (id : String) (initial : List InlineNode) (ds : List Buffered) (r : YjsRegistry Doc)
      → JsMap.get id r.blocks ≡ none
      → JsMap.get id r.buffered_deltas ≡ none
      → (JsMap.get id (ensure fresh apply now id initial (receive_all id ds r)).blocks
          ≡ some (apply_all (live now ds) (fresh initial)))
        × (JsMap.get id (receive_all id ds (ensure fresh apply now id initial r)).blocks
            ≡ some (apply_all ds (fresh initial)))
  unfolding live apply_all
  ensure-receive_all now id initial ds r e f =
      let p = buffered-receive_all id ds r e in
      (
        doc-ensure now id initial (receive_all id ds r) p.0
            ∙ ap (λ l. some (apply_all (live now l) (fresh initial)))
                (p.1 ∙ ap (λ o. get_or o [] ++ ds) f),
        doc-receive_all id ds (fresh initial) (ensure fresh apply now id initial r) (
            doc-ensure now id initial r e
            ∙ ap (λ o. some (apply_all (live now (get_or o [])) (fresh initial))) f),
      )
