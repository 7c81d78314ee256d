-- ===== src/Store/Invariant/Answers.antt =====
-- The life of a batch of operations in `pendingOps` of apps/web/src/store/block-store.ts: it waits
-- under its number until it is answered.
use block_docs.Base.{ℕ, ◌≡◌, Option, none, some, List, ite, arith, ℕ_discrete}
use block_docs.Types.{BlockOperation, OpResult, Conflict}
use block_docs.Store.{BlockStoreState}
use block_docs.Store.Queue.{enqueue_ops}
use block_docs.Store.Queue.Order.{waiting, waiting_above, waiting-append, waiting-without}
use block_docs.Store.Remote.{handle_ack, handle_nack}
use block_docs.Store.Invariant.{IsConsistent}

-- What waits under `t` in the store.
abbrev pub waits : ℕ → BlockStoreState → Option (List BlockOperation)
waits t s = waiting t s.pending_ops

-- In a consistent store `enqueueOps` puts the batch under a number that nothing waited under, and
-- leaves all other numbers as they were.
pub waits-enqueue_ops :
    (t : ℕ) (ops : List BlockOperation) (s : BlockStoreState)
    → IsConsistent s
    → let (s', seq) = enqueue_ops ops s in
      (waits seq s ≡ none) × (waits t s' ≡ ite (ℕ_discrete seq t) (some ops) (waits t s))
unfolding enqueue_ops
waits-enqueue_ops t ops s c =
    let fresh =
      waiting_above s.client_seq_counter 1 s.client_seq_counter s.pending_ops c.queued
        (omega arith) in
    (fresh, waiting-append t s.pending_ops _ fresh)

-- An answer, ack or nack, takes off what waited under its number and nothing else.
pub waits-answer :
    (t seq : ℕ) (results : List OpResult) (conflicts : List Conflict) (s : BlockStoreState)
    → (waits t (handle_ack seq results s) ≡ ite (ℕ_discrete seq t) none (waits t s))
      × (waits t (handle_nack seq conflicts s) ≡ ite (ℕ_discrete seq t) none (waits t s))
unfolding handle_ack handle_nack
waits-answer t seq results conflicts s =
    (waiting-without t seq s.pending_ops, waiting-without t seq s.pending_ops)
