-- ===== src/Editor/Handlers/Paste.antt =====
-- What `onMarkdownPaste` of apps/web/src/components/editor/BlockEditor.tsx makes of the templates.
pub mod Emptied
use block_docs.Base.{
  ℕ, ◌≡◌, ◌≢◌, refl, sym, ap, subst, ◌∙◌, String, Bool, Bool-cases, true, false, Option, none, some,
  List, [], ◌∷◌, All, ite, if_pos, if_neg, inl, inr, string_key, string_discrete, none≢some,
  if◌then◌else◌, zero, suc,
}
use mathlib.Core.Option
use block_docs.JsMap
use block_docs.JsMap.{IsDistinct}
use block_docs.JsMap.Laws.{get-set, get-delete, get-map_values, set-IsDistinct}
use block_docs.Types.{Block}
use block_docs.Store.{BlockStoreState}
use block_docs.Store.Index.{parent_discrete}
use block_docs.Store.Local.{insert_block, new_block, reparent, delete_block, without_block}
use block_docs.Editor.Markdown.Blocks.{MarkdownBlockTemplate}
use block_docs.Editor.Handlers.{
  is_root, root_templates, template_options, insert_templates, delete_empty, on_markdown_paste,
}

-- No two templates have the same identifier.
abbrev pub AreApart : List MarkdownBlockTemplate → Type 0
AreApart [] = Unit
AreApart (t ∷ ts) = All (λ u. u.block_id ≢ t.block_id) ts × AreApart ts

abbrev pub AreNew : BlockStoreState → List MarkdownBlockTemplate → Type 0
AreNew s ts = All (λ t. JsMap.get t.block_id s.blocks ≡ none) ts

-- The store has a block for the template if that is a root, and nothing for it otherwise.
abbrev pub Lands : Option String → BlockStoreState → Bool → MarkdownBlockTemplate → Type 0
Lands parent s true t =
    (b : Block) × (JsMap.get t.block_id s.blocks ≡ some b)
    × (b.type ≡ t.type)
    × (b.content ≡ t.content)
    × (b.parent_id ≡ parent)
Lands parent s false t = JsMap.get t.block_id s.blocks ≡ none

module _ (parent : Option String) where
  abbrev inserted : MarkdownBlockTemplate → String → BlockStoreState → BlockStoreState
  inserted t after s = (insert_block t.type (template_options parent after t) t.block_id s).0

  abbrev made_block : MarkdownBlockTemplate → String → BlockStoreState → Block
  made_block t after s = new_block t.type (template_options parent after t) t.block_id s

  new_block-type :
      (t : MarkdownBlockTemplate) (after : String) (s : BlockStoreState)
      → (made_block t after s).type ≡ t.type
  unfolding new_block
  new_block-type t after s = refl

  new_block-content :
      (t : MarkdownBlockTemplate) (after : String) (s : BlockStoreState)
      → (made_block t after s).content ≡ t.content
  unfolding new_block
  new_block-content t after s = refl

  new_block-parent :
      (t : MarkdownBlockTemplate) (after : String) (s : BlockStoreState)
      → (made_block t after s).parent_id ≡ parent
  unfolding new_block
  new_block-parent t after s = refl

  get-inserted :
      (k : String) (t : MarkdownBlockTemplate) (after : String) (s : BlockStoreState)
      → JsMap.get k (inserted t after s).blocks
        ≡ ite (string_discrete t.block_id k) (some (made_block t after s)) (JsMap.get k s.blocks)
  unfolding insert_block new_block
  get-inserted k t after s = get-set k t.block_id (made_block t after s) s.blocks

  get-inserted-other :
      (k : String) (t : MarkdownBlockTemplate) (after : String) (s : BlockStoreState)
      → t.block_id ≢ k
      → JsMap.get k (inserted t after s).blocks ≡ JsMap.get k s.blocks
  get-inserted-other k t after s ne =
      get-inserted k t after s ∙ if_neg (string_discrete t.block_id k) ne _ _

  AreNew-inserted :
      (t : MarkdownBlockTemplate) (after : String) (s : BlockStoreState)
      (ts : List MarkdownBlockTemplate)
      → All (λ u. u.block_id ≢ t.block_id) ts
      → AreNew s ts
      → AreNew (inserted t after s) ts
  AreNew-inserted t after s [] ne h = tt
  AreNew-inserted t after s (u ∷ us) ne h = (
    get-inserted-other u.block_id t after s (λ e. ne.0 (sym e)) ∙ h.0,
    AreNew-inserted t after s us ne.1 h.1,
  )

  get-insert_templates :
      (k : String) (ts : List MarkdownBlockTemplate) (after : String) (s : BlockStoreState)
      → All (λ u. u.block_id ≢ k) ts
      → JsMap.get k (insert_templates parent (root_templates ts) after s).blocks
        ≡ JsMap.get k s.blocks
  unfolding insert_templates root_templates
  get-insert_templates k [] after s ne = refl
  get-insert_templates k (t ∷ ts) after s ne = elim (Bool-cases (is_root t.parent_index)) [
    | inl e ↦ rw e (
        get-insert_templates k ts t.block_id (inserted t after s) ne.1
        ∙ get-inserted-other k t after s ne.0)
    | inr e ↦ rw e (get-insert_templates k ts after s ne.1)
  ]

  insert_templates-IsDistinct :
      (ts : List MarkdownBlockTemplate) (after : String) (s : BlockStoreState)
      → IsDistinct s.blocks
      → IsDistinct (insert_templates parent ts after s).blocks
  unfolding insert_templates insert_block new_block
  insert_templates-IsDistinct [] after s d = d
  insert_templates-IsDistinct (t ∷ ts) after s d =
      insert_templates-IsDistinct ts t.block_id (inserted t after s)
        (set-IsDistinct t.block_id (made_block t after s) s.blocks d)

  pub roots-root :
      (t : MarkdownBlockTemplate) (ts : List MarkdownBlockTemplate)
      → is_root t.parent_index ≡ true
      → root_templates (t ∷ ts) ≡ t ∷ root_templates ts
  unfolding root_templates
  roots-root t ts e = rw e refl

  roots-nested :
      (t : MarkdownBlockTemplate) (ts : List MarkdownBlockTemplate)
      → is_root t.parent_index ≡ false
      → root_templates (t ∷ ts) ≡ root_templates ts
  unfolding root_templates
  roots-nested t ts e = rw e refl

  abbrev AllLand : List MarkdownBlockTemplate → BlockStoreState → Type 0
  AllLand ts s = All (λ t. Lands parent s (is_root t.parent_index) t) ts

  insert_templates-Lands :
      (ts : List MarkdownBlockTemplate) (after : String) (s : BlockStoreState)
      → AreApart ts
      → AreNew s ts
      → AllLand ts (insert_templates parent (root_templates ts) after s)
  unfolding insert_templates
  insert_templates-Lands [] after s apart new = tt
  insert_templates-Lands (t ∷ ts) after s apart new = elim (Bool-cases (is_root t.parent_index)) [
    | inl e ↦
        subst (λ l. AllLand (t ∷ ts) (insert_templates parent l after s)) (sym (roots-root t ts e))
          (
            subst
                (λ r.
                  Lands parent
                    (insert_templates parent (root_templates ts) t.block_id (inserted t after s)) r
                    t)
                (sym e)
                (
                  made_block t after s,
                  get-insert_templates t.block_id ts t.block_id (inserted t after s) apart.0
                      ∙ get-inserted t.block_id t after s
                      ∙ if_pos (string_discrete t.block_id t.block_id) refl _ _,
                  new_block-type t after s,
                  new_block-content t after s,
                  new_block-parent t after s,
                ),
            insert_templates-Lands ts t.block_id (inserted t after s) apart.1
                (AreNew-inserted t after s ts apart.0 new.1),
          )
    | inr e ↦
        subst (λ l. AllLand (t ∷ ts) (insert_templates parent l after s))
          (sym (roots-nested t ts e))
          (
            subst (λ r. Lands parent (insert_templates parent (root_templates ts) after s) r t)
                (sym e) (get-insert_templates t.block_id ts after s apart.0 ∙ new.0),
            insert_templates-Lands ts after s apart.1 new.1,
          )
  ]
