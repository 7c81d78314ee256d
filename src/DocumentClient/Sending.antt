-- ===== src/DocumentClient/Sending.antt =====
-- Which batches apps/web/src/app/docs/[docId]/DocumentClient.tsx sends, and how often.
use block_docs.Base.{
  ℕ, ◌≡◌, ◌≢◌, refl, sym, ap, ◌∙◌, String, true, Option, none, some, Option-cases, inl, inr, List,
  [], ◌∷◌, ◌++◌, if_pos, if_neg, ℕ_discrete, none≢some,
}
use mathlib.Core.Option.{some-injective}
use block_docs.Types.{InlineNode, OpResult}
use block_docs.Store.{Pending}
use block_docs.Store.Queue.{OpsFrame, without}
use block_docs.Store.Remote.{handle_ack}
use block_docs.Ws.Handlers.Ops.Client.{hear}
use block_docs.Ws.Protocol.{ServerMessage}
use block_docs.DocumentClient.{
  DocumentClient, or_last, last_pending, frame_of, send_last, pending_effect, on_message,
}

or_last≢none : (p : Pending) (o : Option Pending) → ¬ (or_last p o ≡ none)
unfolding or_last
or_last≢none p none e = none≢some p (sym e)
or_last≢none p (some q) e = none≢some q (sym e)

pub last-none : (ps : List Pending) → last_pending ps ≡ none → ps ≡ []
unfolding last_pending
last-none [] e = refl
last-none (p ∷ ps) e = absurd (or_last≢none p (last_pending ps) e)

without-other :
    (seq : ℕ) (p : Pending) (ps : List Pending)
    → p.client_seq ≢ seq
    → without seq (p ∷ ps) ≡ p ∷ without seq ps
unfolding without
without-other seq p ps ne = if_neg (ℕ_discrete p.client_seq seq) ne _ _

-- What waits last still waits last when another batch is taken off.
last-without :
    (seq : ℕ) (q : Pending) (ps : List Pending)
    → last_pending ps ≡ some q
    → q.client_seq ≢ seq
    → last_pending (without seq ps) ≡ some q
unfolding last_pending or_last without
last-without seq q [] e ne = e
last-without seq q (p ∷ ps) e ne = elim (Option-cases (last_pending ps)) [
  | inl n ↦
      let same = some-injective p q (sym (ap (or_last p) n) ∙ e) in
      ap last_pending (without-other seq p ps (λ h. ne (sym (ap (λ r. r.client_seq) same) ∙ h)))
      ∙ ap (λ l. or_last p (last_pending (without seq l))) (last-none ps n)
      ∙ ap some same
  | inr (k, s) ↦
      let rest = last-without seq q ps (s ∙ sym (ap (or_last p) s) ∙ e) ne in
      elim (ℕ_discrete p.client_seq seq) [
        | yes h ↦ ap last_pending (if_pos (ℕ_discrete p.client_seq seq) h _ _) ∙ rest
        | no h ↦ ap last_pending (without-other seq p ps h) ∙ ap (or_last p) rest
      ]
]

send-last :
    (q : Pending) (sent : List OpsFrame) → send_last true (some q) sent ≡ sent ++ frame_of q ∷ []
unfolding send_last
send-last q sent = refl

module _ {Doc : Type 0} (fresh : List InlineNode → Doc) (apply : String → Doc → Doc) where
  -- While the connection is open, an ack of one batch sends again the batch that waits last, if that
  -- is another.
  pub ack_resends :
      (now seq : ℕ) (results : List OpResult) (q : Pending) (c : DocumentClient Doc)
      → c.is_open ≡ true
      → last_pending c.store.pending_ops ≡ some q
      → q.client_seq ≢ seq
      → let next = on_message fresh apply now (ServerMessage.ack seq results) c in
        (last_pending next.store.pending_ops ≡ some q) × (next.sent ≡ c.sent ++ frame_of q ∷ [])
  unfolding on_message pending_effect hear handle_ack
  ack_resends now seq results q c o l ne =
      let e = last-without seq q c.store.pending_ops l ne in
      (
        e,
        ap (λ m. send_last c.is_open m c.sent) e
            ∙ ap (λ b. send_last b (some q) c.sent) o
            ∙ send-last q c.sent,
      )
