-- ===== src/Store/Invariant/Named.antt =====
-- Block identifiers that are not empty, in the maps that apps/web/src/store/block-store.ts makes.
use block_docs.Base.{
  ℕ, String, true, Option, none, some, List, [], ◌∷◌, ◌≡◌, refl, arith, ite-both, string_key,
  string_discrete,
}
use block_docs.JsMap
use block_docs.JsMap.{JsMap}
use block_docs.Types.{Payload, Block, BlockOperation, OpResult, Conflict}
use block_docs.Store.Index.{Blocks}
use block_docs.Store.Queue.{by_block_id}
use block_docs.Store.Local.{without_block}
use block_docs.Store.Remote.{
  change, change_found, apply_payload, apply_op, apply_ops, set_versions, settle, settle_all,
}
use block_docs.Ws.Protocol.Schema.Frame.{is_named}

abbrev pub IsNamed : String → Type 0
IsNamed id = is_named id ≡ true

-- No key of a map is empty.
abbrev pub AllNamed : {V : Type 0} → JsMap String V → Type 0
AllNamed [] = Unit
AllNamed ((id, v) ∷ m) = IsNamed id × AllNamed m

pub set-AllNamed :
    (id : String) (b : Block) (m : Blocks) → IsNamed id → AllNamed m → AllNamed (JsMap.set id b m)
unfolding JsMap.set
set-AllNamed id b [] h a = (h, tt)
set-AllNamed id b ((j, c) ∷ m) h a =
    ite-both AllNamed (string_discrete j id) _ _ a (a.0, set-AllNamed id b m h a.1)

pub delete-AllNamed : (id : String) (m : Blocks) → AllNamed m → AllNamed (JsMap.delete id m)
unfolding JsMap.delete
delete-AllNamed id [] a = tt
delete-AllNamed id ((j, c) ∷ m) a =
    ite-both AllNamed (string_discrete j id) _ _ a.1 (a.0, delete-AllNamed id m a.1)

pub map_values-AllNamed :
    (f : Block → Block) (m : Blocks) → AllNamed m → AllNamed (JsMap.map_values f m)
unfolding JsMap.map_values
map_values-AllNamed f [] a = tt
map_values-AllNamed f ((j, c) ∷ m) a = (a.0, map_values-AllNamed f m a.1)

pub get-AllNamed :
    (id : String) (b : Block) (m : Blocks) → AllNamed m → JsMap.get id m ≡ some b → IsNamed id
unfolding JsMap.get
get-AllNamed id b [] a e = cc
get-AllNamed id b ((j, c) ∷ m) a e = ground (arith, get-AllNamed id b m a.1)

pub change_found-AllNamed :
    (id : String) (f : Block → Block) (o : Option Block) (m : Blocks)
    → JsMap.get id m ≡ o
    → AllNamed m
    → AllNamed (change_found id f o m)
unfolding change_found
change_found-AllNamed id f none m e a = a
change_found-AllNamed id f (some b) m e a = set-AllNamed id (f b) m (get-AllNamed id b m a e) a

pub change-AllNamed :
    (id : String) (f : Block → Block) (m : Blocks) → AllNamed m → AllNamed (change id f m)
unfolding change
change-AllNamed id f m a = change_found-AllNamed id f (JsMap.get id m) m refl a

pub apply_payload-AllNamed :
    (id : String) (version : Option ℕ) (p : Payload) (m : Blocks)
    → IsNamed id
    → AllNamed m
    → AllNamed (apply_payload id version p m)
unfolding apply_payload without_block
apply_payload-AllNamed id version (Payload.insert_block type parent_id after_id content position) m
      h a =
    set-AllNamed id _ m h a
apply_payload-AllNamed id version Payload.delete_block m h a =
    map_values-AllNamed _ (JsMap.delete id m) (delete-AllNamed id m a)
apply_payload-AllNamed id version (Payload.move_block parent_id after_id position) m h a =
    change-AllNamed id _ m a
apply_payload-AllNamed id version (Payload.update_attrs attrs) m h a = change-AllNamed id _ m a
apply_payload-AllNamed id version (Payload.update_content content) m h a = change-AllNamed id _ m a

-- The identifiers in a list, as the keys of a map.
abbrev pub Each : {A : Type 0} → (A → String) → List A → Type 0
Each id_of [] = Unit
Each id_of (x ∷ xs) = IsNamed (id_of x) × Each id_of xs

pub apply_ops-AllNamed :
    (ops : List BlockOperation) (m : Blocks)
    → Each (λ op. op.block_id) ops
    → AllNamed m
    → AllNamed (apply_ops ops m)
unfolding apply_ops apply_op
apply_ops-AllNamed [] m h a = a
apply_ops-AllNamed (op ∷ ops) m h a =
    apply_ops-AllNamed ops _ h.1 (apply_payload-AllNamed op.block_id op.version op.payload m h.0 a)

pub by_block_id-AllNamed :
    (bs : List Block) (m : Blocks)
    → Each (λ b. b.block_id) bs
    → AllNamed m
    → AllNamed (by_block_id bs m)
unfolding by_block_id
by_block_id-AllNamed [] m h a = a
by_block_id-AllNamed (b ∷ bs) m h a =
    by_block_id-AllNamed bs (JsMap.set b.block_id b m) h.1 (set-AllNamed b.block_id b m h.0 a)

pub settle-AllNamed :
    (id : String) (o : Option Block) (m : Blocks)
    → IsNamed id
    → AllNamed m
    → AllNamed (settle id o m)
unfolding settle
settle-AllNamed id none m h a = delete-AllNamed id m a
settle-AllNamed id (some b) m h a = set-AllNamed id b m h a

pub settle_all-AllNamed :
    (cs : List Conflict) (m : Blocks)
    → Each (λ c. c.block_id) cs
    → AllNamed m
    → AllNamed (settle_all cs m)
unfolding settle_all
settle_all-AllNamed [] m h a = a
settle_all-AllNamed (c ∷ cs) m h a =
    settle_all-AllNamed cs _ h.1 (settle-AllNamed c.block_id c.current m h.0 a)

pub set_versions-AllNamed :
    (rs : List OpResult) (m : Blocks) → AllNamed m → AllNamed (set_versions rs m)
unfolding set_versions
set_versions-AllNamed [] m a = a
set_versions-AllNamed (r ∷ rs) m a = set_versions-AllNamed rs _ (change-AllNamed r.block_id _ m a)
