-- ===== src/Store/Invariant/Keeps.antt =====
-- The keys of the maps that the loops of apps/web/src/store/block-store.ts make.
use block_docs.Base.{ℕ, String, Option, none, some, List, [], ◌∷◌, ◌≡◌, refl, string_key}
use block_docs.JsMap
use block_docs.JsMap.{IsDistinct}
use block_docs.JsMap.Laws.{set-IsDistinct, delete-IsDistinct, map_values-IsDistinct}
use block_docs.Types.{Block, BlockOperation, Payload, OpResult, Conflict}
use block_docs.Store.Index.{Blocks}
use block_docs.Store.Shape.{SameBlock, SameShape, SameShape-refl, SameShape-trans, set-SameShape}
use block_docs.Store.Queue.{by_block_id}
use block_docs.Store.Local.{without_block}
use block_docs.Store.Remote.{
  change, change_found, apply_payload, apply_op, apply_ops, set_versions, settle, settle_all,
}

pub without_block-IsDistinct :
    (id : String) (to : Option String) (m : Blocks)
    → IsDistinct m
    → IsDistinct (without_block id to m)
unfolding without_block
without_block-IsDistinct id to m d =
    map_values-IsDistinct _ (JsMap.delete id m) (delete-IsDistinct id m d)

pub change_found-IsDistinct :
    (id : String) (f : Block → Block) (o : Option Block) (m : Blocks)
    → IsDistinct m
    → IsDistinct (change_found id f o m)
unfolding change_found
change_found-IsDistinct id f none m d = d
change_found-IsDistinct id f (some b) m d = set-IsDistinct id (f b) m d

pub apply_op-IsDistinct :
    (op : BlockOperation) (m : Blocks) → IsDistinct m → IsDistinct (apply_op op m)
unfolding apply_op
apply_op-IsDistinct op m d = go op.block_id op.version op.payload
  where
    go :
        (id : String) (version : Option ℕ) (p : Payload) → IsDistinct (apply_payload id version p m)
    go id version (Payload.insert_block type parent_id after_id content position) =
        set-IsDistinct id _ m d
    go id version Payload.delete_block = without_block-IsDistinct id none m d
    go id version (Payload.move_block parent_id after_id position) =
        change_found-IsDistinct id _ (JsMap.get id m) m d
    go id version (Payload.update_attrs attrs) = change_found-IsDistinct id _ (JsMap.get id m) m d
    go id version (Payload.update_content content) =
        change_found-IsDistinct id _ (JsMap.get id m) m d

pub apply_ops-IsDistinct :
    (ops : List BlockOperation) (m : Blocks) → IsDistinct m → IsDistinct (apply_ops ops m)
unfolding apply_ops
apply_ops-IsDistinct [] m d = d
apply_ops-IsDistinct (op ∷ ops) m d =
    apply_ops-IsDistinct ops (apply_op op m) (apply_op-IsDistinct op m d)

pub by_block_id-IsDistinct :
    (bs : List Block) (m : Blocks) → IsDistinct m → IsDistinct (by_block_id bs m)
unfolding by_block_id
by_block_id-IsDistinct [] m d = d
by_block_id-IsDistinct (b ∷ bs) m d =
    by_block_id-IsDistinct bs (JsMap.set b.block_id b m) (set-IsDistinct b.block_id b m d)

pub settle_all-IsDistinct :
    (cs : List Conflict) (m : Blocks) → IsDistinct m → IsDistinct (settle_all cs m)
unfolding settle_all
settle_all-IsDistinct [] m d = d
settle_all-IsDistinct (c ∷ cs) m d = settle_all-IsDistinct cs _ (one c.current)
  where
    one : (o : Option Block) → IsDistinct (settle c.block_id o m)
    one none = delete-IsDistinct c.block_id m d
    one (some b) = set-IsDistinct c.block_id b m d

-- What `set_versions` keeps, for the invariant.
pub record Reshaped (m n : Blocks) : Type 0 where
  pub shape : SameShape n m
  pub distinct : IsDistinct n

pub change-Reshaped :
    (id : String) (f : Block → Block) (m : Blocks)
    → ((b : Block) → SameBlock (f b) b)
    → IsDistinct m
    → Reshaped m (change id f m)
unfolding change
change-Reshaped id f m same d = go (JsMap.get id m) refl
  where
    go : (o : Option Block) → JsMap.get id m ≡ o → Reshaped m (change_found id f o m)
    go none e = record { shape = SameShape-refl m; distinct = d }
    go (some b) e = record {
      shape = set-SameShape id b (f b) m e (same b);
      distinct = set-IsDistinct id (f b) m d;
    }

pub set_versions-Reshaped :
    (rs : List OpResult) (m : Blocks) → IsDistinct m → Reshaped m (set_versions rs m)
unfolding set_versions
set_versions-Reshaped [] m d = record { shape = SameShape-refl m; distinct = d }
set_versions-Reshaped (r ∷ rs) m d =
    let one =
      change-Reshaped r.block_id (λ b. record b { version = r.new_version }) m
        (λ b. record { id = refl; parent = refl; position = refl }) d in
    let rest = set_versions-Reshaped rs _ one.distinct in
    record { shape = SameShape-trans _ _ m rest.shape one.shape; distinct = rest.distinct }
