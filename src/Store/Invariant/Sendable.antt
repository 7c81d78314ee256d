-- ===== src/Store/Invariant/Sendable.antt =====
-- What the store of apps/web/src/store/block-store.ts queues, under the schemas of
-- apps/ws/src/protocol.ts, as the effect of apps/web/src/app/docs/[docId]/DocumentClient.tsx sends it.
use mathlib.Core.List.{Memᴰ}
use mathlib.Core.List.Memᴰ
use block_docs.Base.{
  ℕ, String, true, ◌&&◌, Option, none, some, List, [], ◌∷◌, ◌++◌, map, ◌≡◌, refl, ap, ◌∙◌, ite-both,
  string_key, ℕ_discrete, if◌then◌else◌,
}
use block_docs.JsMap
use block_docs.Types.{Json, Fields, Payload, Block, BlockOperation, Attrs, BlockContent}
use block_docs.Store.{BlockStoreState, Pending, initial}
use block_docs.Store.Queue.{
  OpsFrame, drain_pending, enqueue_ops, without, with_blocks, load_snapshot, reset_doc,
  set_awareness, set_focused_block_id, set_last_stream_id,
}
use block_docs.Store.Local.{
  Target, move_op, new_id, new_block, insert_op, moved, without_block, enqueue, insert_block,
  delete_block, delete_found, move_block, move_found, update_attrs, attrs_found, update_content,
  content_found,
}
use block_docs.Store.Remote.{apply_remote_ops, handle_ack, handle_nack}
use block_docs.Store.Invariant.{
  Action, loads, resets, inserts, deletes, moves, sets_attrs, sets_content, hears, acks, nacks,
  sees, focuses, reaches, enqueues, step,
}
use block_docs.Store.Invariant.Step.{run}
use block_docs.Ws.Protocol.{ClientMessage}
use block_docs.Ws.Protocol.Schema.{ok, refused, parse_client_message}
use block_docs.Ws.Protocol.Schema.Frame.{is_batch, all_named, is_valid}
use block_docs.Ws.Protocol.Schema.Client.{
  operation_of, message_of, outgoing_json, received_as, parse_client_message-outgoing_json,
}
use block_docs.WsClient.{Outgoing, message}
use block_docs.Store.Invariant.Named.{
  IsNamed, AllNamed, Each, set-AllNamed, delete-AllNamed, map_values-AllNamed, get-AllNamed,
  apply_ops-AllNamed, by_block_id-AllNamed, settle_all-AllNamed, set_versions-AllNamed,
}

-- What is asked of an action: identifiers that come from outside are not empty. (`enqueues` is what
-- the other actions use; the program does not call it by itself.)
unfoldable pub IsSound : Action → Type 0
IsSound (loads doc_id blocks id) = Each (λ b. b.block_id) blocks
IsSound (inserts type opts fresh) = IsNamed (new_id opts fresh)
IsSound (hears ops stream_id) = Each (λ op. op.block_id) ops
IsSound (nacks seq conflicts) = Each (λ c. c.block_id) conflicts
IsSound (enqueues ops) = ⊥
IsSound a = Unit

abbrev pub AllSound : List Action → Type 0
AllSound [] = Unit
AllSound (a ∷ actions) = IsSound a × AllSound actions

module _ (payload_json : Payload → Fields) where
  abbrev AllBatches : List Pending → Type 0
  AllBatches [] = Unit
  AllBatches (p ∷ ps) = (is_batch (map (operation_of payload_json) p.ops) ≡ true) × AllBatches ps

  record IsSendable (s : BlockStoreState) : Type 0 where
    keys : AllNamed s.blocks
    batches : AllBatches s.pending_ops

  append-AllBatches :
      (ps : List Pending) (p : Pending)
      → is_batch (map (operation_of payload_json) p.ops) ≡ true
      → AllBatches ps
      → AllBatches (ps ++ p ∷ [])
  append-AllBatches [] p h a = (h, tt)
  append-AllBatches (q ∷ ps) p h a = (a.0, append-AllBatches ps p h a.1)

  without-AllBatches : (seq : ℕ) (ps : List Pending) → AllBatches ps → AllBatches (without seq ps)
  unfolding without
  without-AllBatches seq [] a = tt
  without-AllBatches seq (p ∷ ps) a =
      let rest = without-AllBatches seq ps a.1 in
      ite-both AllBatches (ℕ_discrete p.client_seq seq) _ _ rest (a.0, rest)

  enqueue-IsSendable :
      (op : BlockOperation) (s : BlockStoreState)
      → IsNamed op.block_id
      → AllNamed s.blocks
      → AllBatches s.pending_ops
      → IsSendable (enqueue op s)
  unfolding enqueue enqueue_ops is_batch operation_of all_named
  enqueue-IsSendable op s h a b = record {
    keys = a;
    batches = append-AllBatches s.pending_ops _ (ap (λ t. t && true) h) b;
  }

  delete_found-IsSendable :
      (id : String) (o : Option Block) (s : BlockStoreState)
      → JsMap.get id s.blocks ≡ o
      → IsSendable s
      → IsSendable (delete_found id o s)
  unfolding delete_found with_blocks without_block
  delete_found-IsSendable id none s e v = v
  delete_found-IsSendable id (some b) s e v =
      enqueue-IsSendable _ _ (get-AllNamed id b s.blocks v.keys e)
        (map_values-AllNamed _ (JsMap.delete id s.blocks) (delete-AllNamed id s.blocks v.keys))
        v.batches

  move_found-IsSendable :
      (id : String) (to : Target) (o : Option Block) (s : BlockStoreState)
      → JsMap.get id s.blocks ≡ o
      → IsSendable s
      → IsSendable (move_found id to o s)
  unfolding move_found move_op with_blocks
  move_found-IsSendable id to none s e v = v
  move_found-IsSendable id to (some b) s e v =
      let h = get-AllNamed id b s.blocks v.keys e in
      enqueue-IsSendable (move_op id to b (moved to b s).position)
        (with_blocks (JsMap.set id (moved to b s) s.blocks) s) h
        (set-AllNamed id (moved to b s) s.blocks h v.keys) v.batches

  attrs_found-IsSendable :
      (id : String) (attrs : Attrs) (o : Option Block) (s : BlockStoreState)
      → JsMap.get id s.blocks ≡ o
      → IsSendable s
      → IsSendable (attrs_found id attrs o s)
  unfolding attrs_found
  attrs_found-IsSendable id attrs none s e v = v
  attrs_found-IsSendable id attrs (some b) s e v =
      let h = get-AllNamed id b s.blocks v.keys e in
      enqueue-IsSendable _ _ h (set-AllNamed id _ s.blocks h v.keys) v.batches

  content_found-IsSendable :
      (id : String) (content : BlockContent) (o : Option Block) (s : BlockStoreState)
      → JsMap.get id s.blocks ≡ o
      → IsSendable s
      → IsSendable (content_found id content o s)
  unfolding content_found
  content_found-IsSendable id content none s e v = v
  content_found-IsSendable id content (some b) s e v = record {
    keys = set-AllNamed id _ s.blocks (get-AllNamed id b s.blocks v.keys e) v.keys;
    batches = v.batches;
  }

  step-IsSendable :
      (s : BlockStoreState) (a : Action) → IsSound a → IsSendable s → IsSendable (step s a)
  unfolding step IsSound load_snapshot reset_doc insert_block new_block insert_op delete_block
      move_block update_attrs update_content apply_remote_ops handle_ack handle_nack set_awareness
      set_focused_block_id set_last_stream_id with_blocks
  step-IsSendable s (loads doc_id blocks id) h v = record {
    keys = by_block_id-AllNamed blocks [] h tt;
    batches = tt;
  }
  step-IsSendable s resets h v = record { keys = tt; batches = tt }
  step-IsSendable s (inserts type opts fresh) h v =
      enqueue-IsSendable _ _ h (set-AllNamed _ _ s.blocks h v.keys) v.batches
  step-IsSendable s (deletes id) h v = delete_found-IsSendable id (JsMap.get id s.blocks) s refl v
  step-IsSendable s (moves id to) h v = move_found-IsSendable id to (JsMap.get id s.blocks) s refl v
  step-IsSendable s (sets_attrs id attrs) h v =
      attrs_found-IsSendable id attrs (JsMap.get id s.blocks) s refl v
  step-IsSendable s (sets_content id content) h v =
      content_found-IsSendable id content (JsMap.get id s.blocks) s refl v
  step-IsSendable s (hears ops stream_id) h v = record {
    keys = apply_ops-AllNamed ops s.blocks h v.keys;
    batches = v.batches;
  }
  step-IsSendable s (acks seq results) h v = record {
    keys = set_versions-AllNamed results s.blocks v.keys;
    batches = without-AllBatches seq s.pending_ops v.batches;
  }
  step-IsSendable s (nacks seq conflicts) h v = record {
    keys = settle_all-AllNamed conflicts s.blocks h v.keys;
    batches = without-AllBatches seq s.pending_ops v.batches;
  }
  step-IsSendable s (sees users) h v = record { keys = v.keys; batches = v.batches }
  step-IsSendable s (focuses id) h v = record { keys = v.keys; batches = v.batches }
  step-IsSendable s (reaches id) h v = record { keys = v.keys; batches = v.batches }
  step-IsSendable s (enqueues ops) h v = absurd h

  run-IsSendable :
      (s : BlockStoreState) (actions : List Action)
      → AllSound actions
      → IsSendable s
      → IsSendable (run s actions)
  unfolding run
  run-IsSendable s [] h v = v
  run-IsSendable s (a ∷ actions) h v =
      run-IsSendable (step s a) actions h.1 (step-IsSendable s a h.0 v)

  abbrev pub outgoing : OpsFrame → Outgoing
  outgoing f = message (ClientMessage.ops f.client_seq f.ops)

  drained-is_batch :
      (f : OpsFrame) (ps : List Pending)
      → AllBatches ps
      → Memᴰ f (map (λ p. record { client_seq = p.client_seq; ops = p.ops }) ps)
      → is_batch (map (operation_of payload_json) f.ops) ≡ true
  drained-is_batch f [] a m = absurd (Memᴰ.not-nil m)
  drained-is_batch f (p ∷ ps) a (Memᴰ.head e) =
      ap (λ (g : OpsFrame). is_batch (map (operation_of payload_json) g.ops)) e ∙ a.0
  drained-is_batch f (p ∷ ps) a (Memᴰ.tail m) = drained-is_batch f ps a.1 m

  -- After any actions of the editor and answers of the server, in any order, in which no identifier
  -- that comes from outside is empty: each frame that `drainPending` sends, the server accepts and
  -- reads as it was. (`JSON.parse` reads what `JSON.stringify` wrote for the frame.)
  pub parse_client_message-drain_pending :
      (json_parse : String → Option Json) (stringify : Json → String) (actions : List Action)
      (f : OpsFrame)
      → AllSound actions
      → Memᴰ f (drain_pending (run initial actions))
      → json_parse (stringify (outgoing_json payload_json (outgoing f)))
        ≡ some (outgoing_json payload_json (outgoing f))
      → parse_client_message json_parse (stringify (outgoing_json payload_json (outgoing f)))
        ≡ ok (message_of payload_json (ClientMessage.ops f.client_seq f.ops))
  unfolding drain_pending received_as message_of is_valid
  parse_client_message-drain_pending json_parse stringify actions f h m reads =
      parse_client_message-outgoing_json payload_json json_parse stringify (outgoing f) reads
      ∙ ap
          (λ b.
            if b
            then ok (message_of payload_json (ClientMessage.ops f.client_seq f.ops))
            else refused)
          (drained-is_batch f (run initial actions).pending_ops
            (run-IsSendable initial actions h (record { keys = tt; batches = tt })).batches m)
