-- ===== src/Blocks/Attributes.antt =====
-- What `updateAttrs` of apps/web/src/store/block-store.ts writes, as the blocks' components read it.
use block_docs.Base.{
  String, Option, none, some, get_or, [], ◌∷◌, ite, if_pos, if_neg, ◌≡◌, refl, sym, ap, subst, ◌∙◌,
  string_key, string_discrete,
}
use block_docs.JsMap
use block_docs.JsMap.{IsDistinct}
use block_docs.JsMap.Laws.{get-set}
use block_docs.Types.{Attrs, Json, Block}
use block_docs.Store.{BlockStoreState}
use block_docs.Store.Queue.{enqueue_ops}
use block_docs.Store.Local.{spread, with_attrs, enqueue, attrs_found, update_attrs}
use block_docs.Blocks.{block_attr}

-- What is written, or else what was there.
unfoldable pub written_or : {A : Type 0} → Option A → Option A → Option A
written_or none o = o
written_or (some a) o = some a

choose :
    {P A : Type 0} (d : Dec P) (a : A) (over base : Option A)
    → (P → over ≡ none)
    → written_or over (ite d (some a) base) ≡ written_or (ite d (some a) over) base
unfolding written_or
choose (yes p) a over base h = ap (λ o. written_or o (some a)) (h p)
choose (no n) a over base h = refl

get-spread :
    (key : String) (base over : Attrs)
    → IsDistinct over
    → JsMap.get key (spread base over) ≡ written_or (JsMap.get key over) (JsMap.get key base)
unfolding spread written_or JsMap.get
get-spread key base [] d = refl
get-spread key base ((j, v) ∷ over) d =
    get-spread key (JsMap.set j v base) over d.1
    ∙ ap (written_or (JsMap.get key over)) (get-set key j v base)
    ∙ choose (string_discrete j key) v (JsMap.get key over) (JsMap.get key base)
        (λ p. subst (λ k. JsMap.get k over ≡ none) p d.0)

-- An attribute of a block in the store.
unfoldable pub attribute_in : String → Option Block → Option Json
unfolding block_attr
attribute_in key none = none
attribute_in key (some b) = block_attr key b

abbrev pub attribute_of : String → String → BlockStoreState → Option Json
attribute_of id key s = attribute_in key (JsMap.get id s.blocks)

-- An attribute of a block, if there is one, where others are written over its own.
unfoldable pub written : Attrs → String → Option Block → Option Json
unfolding block_attr written_or
written over key none = none
written over key (some b) = written_or (JsMap.get key over) (block_attr key b)

attrs_found-written :
    (id other key : String) (attrs : Attrs) (o : Option Block) (s : BlockStoreState)
    → IsDistinct attrs
    → JsMap.get id s.blocks ≡ o
    → attribute_of other key (attrs_found id attrs o s)
      ≡ ite (string_discrete id other) (written attrs key o) (attribute_of other key s)
unfolding attrs_found written attribute_in block_attr with_attrs enqueue enqueue_ops
attrs_found-written id other key attrs none s d e = elim (string_discrete id other) [
  | yes p ↦
      ap (attribute_in key) (subst (λ k. JsMap.get k s.blocks ≡ none) p e)
      ∙ sym (if_pos (string_discrete id other) p none (attribute_of other key s))
  | no n ↦ sym (if_neg (string_discrete id other) n none (attribute_of other key s))
]
attrs_found-written id other key attrs (some b) s d e =
    let next : Block = record b { content = with_attrs attrs b.content } in
    let found = get-set other id next s.blocks in
    elim (string_discrete id other) [
      | yes p ↦
          ap (attribute_in key) (found ∙ if_pos (string_discrete id other) p _ _)
          ∙ get-spread key (get_or b.content.attrs []) attrs d
          ∙ sym (if_pos (string_discrete id other) p _ _)
      | no n ↦
          ap (attribute_in key) (found ∙ if_neg (string_discrete id other) n _ _)
          ∙ sym (if_neg (string_discrete id other) n _ _)
    ]

-- Writing attributes of a block: each block's attributes are as they were, but those of this block
-- that were written have what was written. A block that is not there stays away.
pub attribute_of-update_attrs :
    (id other key : String) (attrs : Attrs) (s : BlockStoreState)
    → IsDistinct attrs
    → attribute_of other key (update_attrs id attrs s)
      ≡ ite
          (string_discrete id other)
          (written attrs key (JsMap.get id s.blocks))
          (attribute_of other key s)
unfolding update_attrs
attribute_of-update_attrs id other key attrs s d =
    attrs_found-written id other key attrs (JsMap.get id s.blocks) s d refl
