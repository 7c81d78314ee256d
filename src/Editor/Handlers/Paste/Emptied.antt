-- ===== src/Editor/Handlers/Paste/Emptied.antt =====
-- `onMarkdownPaste` of apps/web/src/components/editor/BlockEditor.tsx as a whole, with the block that
-- is deleted if it was empty.
use block_docs.Base.{
  ◌==◌, arith, ℕ, ◌≡◌, ◌≢◌, refl, sym, ap, subst, ◌∙◌, String, Bool, true, false, Option, none,
  some, List, [], ◌∷◌, All, if_pos, if_neg, string_key, string_discrete, none≢some, zero, suc,
}
use mathlib.Core.Option
use block_docs.JsMap
use block_docs.JsMap.{IsDistinct}
use block_docs.JsMap.Laws.{get-delete, get-map_values}
use block_docs.Types.{Block}
use block_docs.Store.{BlockStoreState}
use block_docs.Store.Index.{parent_discrete}
use block_docs.Store.Local.{reparent, delete_block, without_block}
use block_docs.Editor.Markdown.Blocks.{MarkdownBlockTemplate}
use block_docs.Editor.Handlers.{
  is_root, root_templates, insert_templates, delete_empty, on_markdown_paste,
}
use block_docs.Editor.Handlers.Paste.{
  AreApart, AreNew, Lands, AllLand, get-insert_templates, insert_templates-IsDistinct,
  insert_templates-Lands,
}

-- A block whose parent is `to` already is kept by the change of parents to `to`.
reparent_lem :
    (from : String) (to : Option String) (b : Block)
    → b.parent_id ≡ to
    → let c = reparent from to b in (c.type ≡ b.type) × (c.content ≡ b.content) × (c.parent_id ≡ to)
unfolding reparent
reparent_lem from to b e =
    let Keeps : Block → Type 0 =
      λ c. (c.type ≡ b.type) × (c.content ≡ b.content) × (c.parent_id ≡ to) in
    elim (parent_discrete b.parent_id (some from)) [
      | yes q ↦
          subst Keeps
            (sym
              (if_pos (parent_discrete b.parent_id (some from)) q (record b { parent_id = to }) b))
            (refl, refl, refl)
      | no n ↦
          subst Keeps
            (sym
              (if_neg (parent_discrete b.parent_id (some from)) n (record b { parent_id = to }) b))
            (refl, refl, e)
    ]

module _ (parent : Option String) where
  -- Deleting another block leaves what was inserted, if its parent is the deleted block's.
  get-delete_block :
      (k : String) (b : Block) (s : BlockStoreState)
      → JsMap.get b.block_id s.blocks ≡ some b
      → IsDistinct s.blocks
      → b.block_id ≢ k
      → JsMap.get k (delete_block b.block_id s).blocks
        ≡ Option.map (reparent b.block_id b.parent_id) (JsMap.get k s.blocks)
  unfolding delete_block
  get-delete_block k b s found d ne = rw found (
      unfold without_block in
      (get-map_values (reparent b.block_id b.parent_id) k (JsMap.delete b.block_id s.blocks)
        ∙ ap (Option.map (reparent b.block_id b.parent_id))
            (get-delete k b.block_id s.blocks d ∙ if_neg (string_discrete b.block_id k) ne _ _)))

  delete_block-Lands :
      (b : Block) (s : BlockStoreState) (r : Bool) (t : MarkdownBlockTemplate)
      → JsMap.get b.block_id s.blocks ≡ some b
      → b.parent_id ≡ parent
      → IsDistinct s.blocks
      → b.block_id ≢ t.block_id
      → Lands parent s r t
      → Lands parent (delete_block b.block_id s) r t
  unfolding reparent
  delete_block-Lands b s false t found p d ne h =
      get-delete_block t.block_id b s found d ne
      ∙ ap (Option.map (reparent b.block_id b.parent_id)) h
  delete_block-Lands b s true t found p d ne h =
      let kept = reparent_lem b.block_id b.parent_id h.0 (h.4 ∙ sym p) in
      (
        reparent b.block_id b.parent_id h.0,
        get-delete_block t.block_id b s found d ne
            ∙ ap (Option.map (reparent b.block_id b.parent_id)) h.1,
        kept.0 ∙ h.2,
        kept.1 ∙ h.3,
        kept.2 ∙ p,
      )

  AllLand-deleted :
      (b : Block) (s : BlockStoreState) (ts : List MarkdownBlockTemplate)
      → JsMap.get b.block_id s.blocks ≡ some b
      → b.parent_id ≡ parent
      → IsDistinct s.blocks
      → All (λ t. t.block_id ≢ b.block_id) ts
      → AllLand parent ts s
      → AllLand parent ts (delete_block b.block_id s)
  AllLand-deleted b s [] found p d ne h = tt
  AllLand-deleted b s (t ∷ ts) found p d ne h = (
    delete_block-Lands b s (is_root t.parent_index) t found p d (λ e. ne.0 (sym e)) h.0,
    AllLand-deleted b s ts found p d ne.1 h.1,
  )

others :
    (b : Block) (s : BlockStoreState) (ts : List MarkdownBlockTemplate)
    → JsMap.get b.block_id s.blocks ≡ some b
    → AreNew s ts
    → All (λ t. t.block_id ≢ b.block_id) ts
others b s [] found new = tt
others b s (t ∷ ts) found new = (
  (λ e. none≢some b (sym new.0 ∙ ap (λ k. JsMap.get k s.blocks) e ∙ found)),
  others b s ts found new.1,
)

delete_empty-AllLand :
    (size : Option ℕ) (b : Block) (s : BlockStoreState) (ts : List MarkdownBlockTemplate)
    → JsMap.get b.block_id s.blocks ≡ some b
    → IsDistinct s.blocks
    → All (λ t. t.block_id ≢ b.block_id) ts
    → AllLand b.parent_id ts s
    → AllLand b.parent_id ts (delete_empty size b.block_id s)
unfolding delete_empty
delete_empty-AllLand none b s ts found d ne h = h
delete_empty-AllLand (some zero) b s ts found d ne h =
    AllLand-deleted b.parent_id b s ts found refl d ne h
delete_empty-AllLand (some (suc n)) b s ts found d ne h = h

-- What the store has for a template with the given parent index.
abbrev pub LandsAt : Option String → BlockStoreState → Option ℕ → MarkdownBlockTemplate → Type 0
LandsAt parent s none t = Lands parent s true t
LandsAt parent s (some zero) t = Lands parent s true t
LandsAt parent s (some (suc n)) t = Lands parent s false t

Lands→LandsAt :
    (parent : Option String) (s : BlockStoreState) (index : Option ℕ) (t : MarkdownBlockTemplate)
    → Lands parent s (is_root index) t
    → LandsAt parent s index t
unfolding is_root
Lands→LandsAt parent s none t h = h
Lands→LandsAt parent s (some zero) t h = h
Lands→LandsAt parent s (some (suc n)) t h =
    let e : (suc n == 0) ≡ false = ground arith in subst (λ b. Lands parent s b t) e h

AllLand→LandsAt :
    (parent : Option String) (s : BlockStoreState) (ts : List MarkdownBlockTemplate)
    → AllLand parent ts s
    → All (λ t. LandsAt parent s t.parent_index t) ts
AllLand→LandsAt parent s [] h = tt
AllLand→LandsAt parent s (t ∷ ts) h =
    (Lands→LandsAt parent s t.parent_index t h.0, AllLand→LandsAt parent s ts h.1)

-- Pasted templates with new identifiers of their own: the store has a block for each whose parent
-- index is 0 or missing, with the template's type and content, beside the block that was pasted
-- into. It has no block for any other template, so all that is nested deeper is lost.
pub on_markdown_paste_lem :
    (ts : List MarkdownBlockTemplate) (size : Option ℕ) (b : Block) (s : BlockStoreState)
    → IsDistinct s.blocks
    → JsMap.get b.block_id s.blocks ≡ some b
    → AreApart ts
    → AreNew s ts
    → All (λ t. LandsAt b.parent_id (on_markdown_paste ts size b s).store t.parent_index t) ts
unfolding on_markdown_paste
on_markdown_paste_lem [] size b s d found apart new = tt
on_markdown_paste_lem (t ∷ ts) size b s d found apart new =
    let ne = others b s (t ∷ ts) found new in
    let roots = root_templates (t ∷ ts) in
    let pasted = insert_templates b.parent_id roots b.block_id s in
    AllLand→LandsAt b.parent_id (delete_empty size b.block_id pasted) (t ∷ ts) (
      delete_empty-AllLand size b pasted (t ∷ ts)
        (get-insert_templates b.parent_id b.block_id (t ∷ ts) b.block_id s ne ∙ found)
        (insert_templates-IsDistinct b.parent_id roots b.block_id s d) ne
        (insert_templates-Lands b.parent_id (t ∷ ts) b.block_id s apart new))
