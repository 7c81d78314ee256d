-- ===== src/DocumentClient/Loading.antt =====
-- The documents of the blocks after `loadInitial` of apps/web/src/app/docs/[docId]/DocumentClient.tsx.
use block_docs.Base.{
  ℕ, ◌≡◌, ◌≢◌, refl, sym, ap, subst, ◌∙◌, String, none, get_or, List, [], ◌∷◌, All, if_pos, if_neg,
  string_key, string_discrete,
}
use mathlib.Core.Option
use block_docs.JsMap
use block_docs.JsMap.Laws.{get-set}
use block_docs.Types.{Block, InlineNode}
use block_docs.Store.{DocId}
use block_docs.Store.Index.{Blocks}
use block_docs.Store.Queue.{by_block_id, load_snapshot, with_blocks}
use block_docs.Editor.Yjs.{YjsRegistry, ensure, ensure_found, flush_found, clear}
use block_docs.DocumentClient.{
  DocumentClient, ensure_blocks, snapshot, load_initial, pending_effect,
}

-- No two blocks have the same identifier.
abbrev pub AreDistinct : List Block → Type 0
AreDistinct [] = Unit
AreDistinct (b ∷ bs) = All (λ c. c.block_id ≢ b.block_id) bs × AreDistinct bs

abbrev AreNew : Blocks → List Block → Type 0
AreNew m bs = All (λ b. JsMap.get b.block_id m ≡ none) bs

AreNew-nil : (bs : List Block) → AreNew [] bs
unfolding JsMap.get
AreNew-nil [] = tt
AreNew-nil (b ∷ bs) = (refl, AreNew-nil bs)

AreNew-set :
    (b : Block) (m : Blocks) (bs : List Block)
    → All (λ c. c.block_id ≢ b.block_id) bs
    → AreNew m bs
    → AreNew (JsMap.set b.block_id b m) bs
AreNew-set b m [] ne h = tt
AreNew-set b m (c ∷ bs) ne h = (
  get-set c.block_id b.block_id b m
      ∙ if_neg (string_discrete b.block_id c.block_id) (λ e. ne.0 (sym e)) _ _
      ∙ h.0,
  AreNew-set b m bs ne.1 h.1,
)

module _ {Doc : Type 0} (fresh : List InlineNode → Doc) (apply : String → Doc → Doc) where
  -- The document that a block begins with.
  abbrev pub doc_of : Block → Doc
  doc_of b = fresh (get_or b.content.children [])

  -- The documents are those that the blocks begin with, and there are no others.
  abbrev pub IsMirror : YjsRegistry Doc → Blocks → Type 0
  IsMirror r m = (id : String) → JsMap.get id r.blocks ≡ Option.map doc_of (JsMap.get id m)

  ensure-new :
      (now : ℕ) (id : String) (initial : List InlineNode) (r : YjsRegistry Doc)
      → r.buffered_deltas ≡ []
      → JsMap.get id r.blocks ≡ none
      → ensure fresh apply now id initial r
        ≡ record r { blocks = JsMap.set id (fresh initial) r.blocks }
  unfolding ensure ensure_found flush_found JsMap.get
  ensure-new now id initial r buffered absent =
      let next : YjsRegistry Doc = record r { blocks = JsMap.set id (fresh initial) r.blocks } in
      ap (λ o. ensure_found fresh apply now id initial o r) absent
      ∙ ap (λ m. flush_found fresh apply now id (JsMap.get id m) next) buffered

  IsMirror-set :
      (b : Block) (r : YjsRegistry Doc) (m : Blocks)
      → IsMirror r m
      → IsMirror
          (record r { blocks = JsMap.set b.block_id (doc_of b) r.blocks })
          (JsMap.set b.block_id b m)
  IsMirror-set b r m h id =
      get-set id b.block_id (doc_of b) r.blocks ∙ elim (string_discrete b.block_id id) [
        | yes p ↦
            if_pos (string_discrete b.block_id id) p _ _
            ∙ sym (
                ap (Option.map doc_of)
                  (get-set id b.block_id b m ∙ if_pos (string_discrete b.block_id id) p _ _))
        | no n ↦
            if_neg (string_discrete b.block_id id) n _ _
            ∙ h id
            ∙ sym (
                ap (Option.map doc_of)
                  (get-set id b.block_id b m ∙ if_neg (string_discrete b.block_id id) n _ _))
      ]

  ensure_blocks-IsMirror :
      (now : ℕ) (bs : List Block) (r : YjsRegistry Doc) (m : Blocks)
      → r.buffered_deltas ≡ []
      → AreNew m bs
      → AreDistinct bs
      → IsMirror r m
      → IsMirror (ensure_blocks fresh apply now bs r) (by_block_id bs m)
  unfolding ensure_blocks by_block_id
  ensure_blocks-IsMirror now [] r m buffered new d h = h
  ensure_blocks-IsMirror now (b ∷ bs) r m buffered new d h =
      let absent = h b.block_id ∙ ap (Option.map doc_of) new.0 in
      subst (λ q. IsMirror (ensure_blocks fresh apply now bs q) (by_block_id (b ∷ bs) m))
        (sym (ensure-new now b.block_id (get_or b.content.children []) r buffered absent))
        (ensure_blocks-IsMirror now bs _ (JsMap.set b.block_id b m) buffered
          (AreNew-set b m bs d.0 new.1) d.1 (IsMirror-set b r m h))

  -- After a snapshot whose blocks have different identifiers is loaded, whatever stood there before:
  -- under each identifier there is a document exactly if the store has a block, and it is the one
  -- that the block begins with, with no early delta in it.
  pub load_initial_docs :
      (now : ℕ) (doc_id : DocId) (blocks : List Block) (last : String) (c : DocumentClient Doc)
      (id : String)
      → AreDistinct blocks
      → let next = load_initial fresh apply now (snapshot doc_id blocks last) c in
        JsMap.get id next.yjs.blocks ≡ Option.map doc_of (JsMap.get id next.store.blocks)
  unfolding load_initial pending_effect load_snapshot with_blocks clear JsMap.get
  load_initial_docs now doc_id blocks last c id d =
      ensure_blocks-IsMirror now blocks (clear c.yjs) [] refl (AreNew-nil blocks) d (λ k. refl) id
