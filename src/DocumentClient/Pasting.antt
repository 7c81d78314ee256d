-- ===== src/DocumentClient/Pasting.antt =====
-- How much of a paste apps/web/src/app/docs/[docId]/DocumentClient.tsx sends.
use block_docs.Base.{
  ℕ, zero, suc, ◌+◌, ◌≤◌, ◌≡◌, ap, String, Bool, true, Option, none, some, Option-cases, inl, inr,
  List, [], ◌∷◌, length, length-append, arith, string_key,
}
use block_docs.JsMap
use block_docs.Types.{Block}
use block_docs.Store.{BlockStoreState, Pending}
use block_docs.Store.Queue.{OpsFrame, with_blocks}
use block_docs.Store.Local.{
  enqueue, insert_block, new_block, insert_op, delete_op, delete_block, delete_found,
}
use block_docs.Store.Remote.Converge.{heard-insert_block}
use block_docs.Editor.Markdown.Blocks.{MarkdownBlockTemplate}
use block_docs.Editor.Handlers.{
  is_root, root_templates, template_options, insert_templates, delete_empty, on_markdown_paste,
}
use block_docs.Editor.Handlers.Paste.{roots-root}
use block_docs.DocumentClient.{
  DocumentClient, last_pending, frame_of, send_last, pending_effect, edit,
}
use block_docs.DocumentClient.Sending.{last-none}

waiting-insert_templates :
    (parent : Option String) (ts : List MarkdownBlockTemplate) (after : String)
    (s : BlockStoreState)
    → length (insert_templates parent ts after s).pending_ops ≡ length s.pending_ops + length ts
unfolding insert_templates
waiting-insert_templates parent [] after s = omega arith
waiting-insert_templates parent (t ∷ ts) after s =
    let r = insert_block t.type (template_options parent after t) t.block_id s in
    let q = (heard-insert_block t.type (template_options parent after t) t.block_id s).0 in
    omega (
      arith,
      waiting-insert_templates parent ts r.1 r.0,
      ap length q,
      length-append s.pending_ops (
          record {
            client_seq = s.client_seq_counter;
            ops =
                insert_op (template_options parent after t)
                  (new_block t.type (template_options parent after t) t.block_id s)
                ∷ [];
          }
          ∷ []),
    )

waiting-delete_found :
    (id : String) (o : Option Block) (s : BlockStoreState)
    → length s.pending_ops ≤ length (delete_found id o s).pending_ops
unfolding delete_found enqueue with_blocks
waiting-delete_found id none s = omega arith
waiting-delete_found id (some b) s = omega (
  arith,
  length-append s.pending_ops
      (record { client_seq = s.client_seq_counter; ops = delete_op id b ∷ [] } ∷ []),
)

waiting-delete_block :
    (id : String) (s : BlockStoreState)
    → length s.pending_ops ≤ length (delete_block id s).pending_ops
unfolding delete_block
waiting-delete_block id s = waiting-delete_found id (JsMap.get id s.blocks) s

waiting-delete_empty :
    (size : Option ℕ) (id : String) (s : BlockStoreState)
    → length s.pending_ops ≤ length (delete_empty size id s).pending_ops
unfolding delete_empty
waiting-delete_empty none id s = omega arith
waiting-delete_empty (some zero) id s = waiting-delete_block id s
waiting-delete_empty (some (suc n)) id s = omega arith

-- One batch is sent if one waits and the connection is open.
sent-pending_effect :
    (is_open : Bool) (ps : List Pending) (sent : List OpsFrame)
    → is_open ≡ true
    → 1 ≤ length ps
    → length (send_last is_open (last_pending ps) sent) ≡ length sent + 1
unfolding send_last
sent-pending_effect is_open ps sent o h = elim (Option-cases (last_pending ps)) [
  | inl e ↦ absurd (omega (arith, ap length (last-none ps e), h))
  | inr (q, e) ↦ rw (e, o) (length-append sent (frame_of q ∷ []))
]

module _ {Doc : Type 0} where
  -- A paste whose first template has no parent queues at least one batch for each template without
  -- a parent. While the connection is open, one batch is handed to it, however many were queued.
  pub paste_sends_one :
      (t : MarkdownBlockTemplate) (ts : List MarkdownBlockTemplate) (size : Option ℕ) (b : Block)
      (c : DocumentClient Doc)
      → c.is_open ≡ true
      → is_root t.parent_index ≡ true
      → let next = edit (λ s. (on_markdown_paste (t ∷ ts) size b s).store) c in
        (length c.store.pending_ops + length (root_templates (t ∷ ts))
          ≤ length next.store.pending_ops)
        × (length next.sent ≡ length c.sent + 1)
  unfolding edit pending_effect on_markdown_paste
  paste_sends_one t ts size b c o root =
      let roots = root_templates (t ∷ ts) in
      let pasted = insert_templates b.parent_id roots b.block_id c.store in
      let n = waiting-insert_templates b.parent_id roots b.block_id c.store in
      let m = waiting-delete_empty size b.block_id pasted in
      let one = roots-root b.parent_id t ts root in
      (
        omega (arith, n, m),
        sent-pending_effect c.is_open (delete_empty size b.block_id pasted).pending_ops c.sent o
            (omega (arith, n, m, ap length one)),
      )
