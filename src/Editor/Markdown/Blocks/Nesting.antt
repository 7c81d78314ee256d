-- ===== src/Editor/Markdown/Blocks/Nesting.antt =====
-- The parents of the templates that apps/web/src/editor/paste-markdown.ts makes.
use block_docs.Base.{
  ℕ, suc, ◌+◌, ◌≤◌, ◌<◌, ◌≡◌, subst, ◌⊎◌, inr, String, Bool, Option, none, some, List, [], ◌∷◌,
  ◌++◌, length, length-append, arith,
}
use block_docs.Text.{Text}
use block_docs.Types.{paragraph, blockquote, BlockType, BlockContent, Attrs}
use block_docs.Editor.Markdown.Blocks.{
  MarkdownBlockTemplate, BlockToken, BlockTokens, Items, heading_token, paragraph_token, code_token,
  blockquote_token, hr, list, ignored, table, text_token, unknown, end, item, nil, cons, text_only,
  join_cells, item_type, push, push_rows, push_raw, push_token, push_children, push_items,
  push_lists,
}

-- A parent of the template at index `n`: the root or an earlier template.
abbrev pub IsParent : Option ℕ → ℕ → Type 0
IsParent none n = ⊥
IsParent (some p) n = (p ≡ 0) ⊎ (p < n)

-- The templates from index `n` on.
abbrev pub IsNested : ℕ → List MarkdownBlockTemplate → Type 0
IsNested n [] = Unit
IsNested n (t ∷ ts) = IsParent t.parent_index n × IsNested (suc n) ts

IsNested-snoc :
    (n : ℕ) (out : List MarkdownBlockTemplate) (t : MarkdownBlockTemplate)
    → IsNested n out
    → IsParent t.parent_index (n + length out)
    → IsNested n (out ++ t ∷ [])
IsNested-snoc n [] t h p = (subst (IsParent t.parent_index) (omega arith) p, tt)
IsNested-snoc n (x ∷ out) t h p =
    (h.0, IsNested-snoc (suc n) out t h.1 (subst (IsParent t.parent_index) (omega arith) p))

module _ (new_id : ℕ → String) (stringify : Option Attrs → String) where
  -- What a step makes of `out`.
  record Extends (out next : List MarkdownBlockTemplate) : Type 0 where
    nested : IsNested 0 next
    longer : length out ≤ length next

  abbrev CanHold : ℕ → List MarkdownBlockTemplate → Type 0
  CanHold parent out = (parent ≡ 0) ⊎ (parent < length out)

  push-Extends :
      (type : BlockType) (content : BlockContent) (parent : ℕ) (out : List MarkdownBlockTemplate)
      → IsNested 0 out
      → CanHold parent out
      → Extends out (push new_id stringify type content parent out)
  unfolding push
  push-Extends type content parent out h p = record {
    nested = IsNested-snoc 0 out _ h (omega (arith, p));
    longer = omega (arith, length-append out);
  }

  same : (out : List MarkdownBlockTemplate) → IsNested 0 out → Extends out out
  same out h = record { nested = h; longer = omega arith }

  then-Extends : (a b c : List MarkdownBlockTemplate) → Extends a b → Extends b c → Extends a c
  then-Extends a b c p q = record { nested = q.nested; longer = omega (arith, p.longer, q.longer) }

  still-CanHold :
      (parent : ℕ) (a b : List MarkdownBlockTemplate)
      → CanHold parent a
      → Extends a b
      → CanHold parent b
  still-CanHold parent a b h p = omega (arith, p.longer)

  push_rows-Extends :
      (rows : List (List Text)) (parent : ℕ) (out : List MarkdownBlockTemplate)
      → IsNested 0 out
      → CanHold parent out
      → Extends out (push_rows new_id stringify rows parent out)
  unfolding push_rows
  push_rows-Extends [] parent out h p = same out h
  push_rows-Extends (row ∷ rows) parent out h p =
      let q = push-Extends paragraph (text_only (join_cells row)) parent out h p in
      then-Extends _ _ _ q (push_rows-Extends rows parent _ q.nested (still-CanHold parent _ _ p q))

  push_raw-Extends :
      (raw : Option Text) (parent : ℕ) (out : List MarkdownBlockTemplate)
      → IsNested 0 out
      → CanHold parent out
      → Extends out (push_raw new_id stringify raw parent out)
  unfolding push_raw
  push_raw-Extends none parent out h p = same out h
  push_raw-Extends (some []) parent out h p = same out h
  push_raw-Extends (some (c ∷ s)) parent out h p = push-Extends _ _ parent out h p

  -- What is pushed can hold what follows.
  held-by-push :
      (type : BlockType) (content : BlockContent) (parent : ℕ) (out : List MarkdownBlockTemplate)
      → CanHold (length out) (push new_id stringify type content parent out)
  unfolding push
  held-by-push type content parent out = inr (omega (arith, length-append out))

  mutual
    unfolding push_token

    push_token-Extends :
        (t : BlockToken) (out : List MarkdownBlockTemplate) (parent : ℕ)
        → IsNested 0 out
        → CanHold parent out
        → Extends out (push_token new_id stringify t out parent)
    push_token-Extends (heading_token depth ts) out parent h p = push-Extends _ _ parent out h p
    push_token-Extends (paragraph_token ts) out parent h p = push-Extends _ _ parent out h p
    push_token-Extends (code_token lang s) out parent h p = push-Extends _ _ parent out h p
    push_token-Extends (blockquote_token ts) out parent h p =
        let q = push-Extends blockquote _ parent out h p in
        then-Extends _ _ _ q
          (push_children-Extends ts _ (length out) q.nested (held-by-push _ _ parent out))
    push_token-Extends hr out parent h p = push-Extends _ _ parent out h p
    push_token-Extends (list ordered items) out parent h p =
        push_items-Extends ordered items out parent h p
    push_token-Extends ignored out parent h p = same out h
    push_token-Extends (table header rows) out parent h p =
        let q = push-Extends paragraph (text_only (join_cells header)) parent out h p in
        then-Extends _ _ _ q
          (push_rows-Extends rows parent _ q.nested (still-CanHold parent _ _ p q))
    push_token-Extends (text_token ts raw) out parent h p = push_raw-Extends raw parent out h p
    push_token-Extends (unknown raw) out parent h p = push_raw-Extends raw parent out h p

    push_children-Extends :
        (ts : BlockTokens) (out : List MarkdownBlockTemplate) (parent : ℕ)
        → IsNested 0 out
        → CanHold parent out
        → Extends out (push_children new_id stringify ts out parent)
    push_children-Extends nil out parent h p = same out h
    push_children-Extends (cons t ts) out parent h p =
        let q = push_token-Extends t out parent h p in
        then-Extends _ _ _ q
          (push_children-Extends ts _ parent q.nested (still-CanHold parent _ _ p q))

    push_items-Extends :
        (ordered : Bool) (items : Items) (out : List MarkdownBlockTemplate) (parent : ℕ)
        → IsNested 0 out
        → CanHold parent out
        → Extends out (push_items new_id stringify ordered items out parent)
    push_items-Extends ordered end out parent h p = same out h
    push_items-Extends ordered (item is_task checked ts rest) out parent h p =
        let q = push-Extends (item_type is_task ordered) _ parent out h p in
        let r = push_lists-Extends ts _ (length out) q.nested (held-by-push _ _ parent out) in
        let qr = then-Extends _ _ _ q r in
        then-Extends _ _ _ qr
          (push_items-Extends ordered rest _ parent r.nested (still-CanHold parent _ _ p qr))

    push_lists-Extends :
        (ts : BlockTokens) (out : List MarkdownBlockTemplate) (parent : ℕ)
        → IsNested 0 out
        → CanHold parent out
        → Extends out (push_lists new_id stringify ts out parent)
    push_lists-Extends nil out parent h p = same out h
    push_lists-Extends (cons (list ordered items) ts) out parent h p =
        let q = push_items-Extends ordered items out parent h p in
        then-Extends _ _ _ q
          (push_lists-Extends ts _ parent q.nested (still-CanHold parent _ _ p q))
    push_lists-Extends (cons t ts) out parent h p = push_lists-Extends ts out parent h p
