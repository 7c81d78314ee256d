-- ===== src/Store/Shape.antt =====
-- What the index of apps/web/src/store/block-store.ts depends on: identifiers, parents, positions.
use mathlib.Core.Path.{fun_ext}
use block_docs.Base.{◌≡◌, refl, ap₂, ◌∙◌, String, some, [], ◌∷◌, if_pos, if_neg, arith, string_key}
use block_docs.JsMap
use block_docs.JsMap.{JsMap}
use block_docs.Types.{Block}
use block_docs.Store.Index.{
  Index, Blocks, position_in, file, file_all, no_index, sort_index, rebuild_index,
}

pub record SameBlock (b c : Block) : Type 0 where
  pub id : b.block_id ≡ c.block_id
  pub parent : b.parent_id ≡ c.parent_id
  pub position : b.position ≡ c.position

abbrev pub SameShape : Blocks → Blocks → Type 0
SameShape [] [] = Unit
SameShape ((j, b) ∷ m) ((k, c) ∷ n) = (j ≡ k) × SameBlock b c × SameShape m n
SameShape _ _ = ⊥

pub SameShape-refl : (m : Blocks) → SameShape m m
SameShape-refl [] = tt
SameShape-refl ((j, b) ∷ m) =
    (refl, record { id = refl; parent = refl; position = refl }, SameShape-refl m)

pub SameShape-trans : (l m n : Blocks) → SameShape l m → SameShape m n → SameShape l n
SameShape-trans [] [] [] p q = tt
SameShape-trans ((i, a) ∷ l) ((j, b) ∷ m) ((k, c) ∷ n) p q = (
  p.0 ∙ q.0,
  record {
    id = p.1.id ∙ q.1.id;
    parent = p.1.parent ∙ q.1.parent;
    position = p.1.position ∙ q.1.position;
  },
  SameShape-trans l m n p.2 q.2,
)
SameShape-trans l m n p q = ground arith

-- Setting a key to a block of the same shape.
pub set-SameShape :
    (k : String) (b c : Block) (m : Blocks)
    → JsMap.get k m ≡ some b
    → SameBlock c b
    → SameShape (JsMap.set k c m) m
unfolding JsMap.get JsMap.set
set-SameShape k b c [] e s = cc
set-SameShape k b c ((j, a) ∷ m) e s = elim (string_key.eq? j k) [
  | yes p ↦
      rw (if_pos (string_key.eq? j k) p)
        (let same : a ≡ b = ground arith in (refl, rw same s, SameShape-refl m))
  | no n ↦ rw (if_neg (string_key.eq? j k) n) (
    refl,
    record { id = refl; parent = refl; position = refl },
    set-SameShape k b c m (rw (if_neg (string_key.eq? j k) n) at e) s,
  )
]

file_all-SameShape :
    (m n : Blocks) (idx : Index)
    → SameShape m n
    → file_all (JsMap.values m) idx ≡ file_all (JsMap.values n) idx
unfolding file_all
file_all-SameShape [] [] idx s = refl
file_all-SameShape ((j, b) ∷ m) ((k, c) ∷ n) idx s =
    file_all-SameShape m n (file b.parent_id b.block_id idx) s.2
    ∙ ap₂ (λ p i. file_all (JsMap.values n) (file p i idx)) s.1.parent s.1.id
file_all-SameShape m n idx s = ground arith

position_in-SameShape :
    (m n : Blocks) → SameShape m n → (id : String) → position_in m id ≡ position_in n id
unfolding position_in JsMap.get
position_in-SameShape [] [] s id = refl
position_in-SameShape ((j, b) ∷ m) ((k, c) ∷ n) s id =
    ground (arith, position_in-SameShape m n s.2 id)
position_in-SameShape m n s id = ground arith

pub rebuild_index-SameShape : (m n : Blocks) → SameShape m n → rebuild_index m ≡ rebuild_index n
unfolding rebuild_index
rebuild_index-SameShape m n s =
    ap₂ sort_index (fun_ext (position_in-SameShape m n s)) (file_all-SameShape m n no_index s)
