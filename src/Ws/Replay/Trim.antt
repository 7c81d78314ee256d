-- ===== src/Ws/Replay/Trim.antt =====
-- The retention boundary in apps/ws/src/replay.ts: what Redis drops from the front of a stream, and
-- the cursors that are found to be trimmed.
use block_docs.Base.{
  ◌≡◌, ◌≢◌, refl, ap, ◌∙◌, String, true, false, Option, none, some, List, [], ◌∷◌, ◌++◌, if_neg,
  arith, if◌then◌else◌, string_discrete, All,
}
use block_docs.Text.{codes}
use block_docs.Ws.StreamId.{
  Sign, above, same, below, compare_stream_ids, flip_result, compare_stream_ids_order,
}
use block_docs.Ws.Replay.{Entry, first, Codec, is_above, trim_test, is_trimmed, run_replay}
use block_docs.Ws.Replay.Complete.{replayed, run_replay_lem}

module _ (c : Codec) where
  abbrev pub compare_ids : String → String → Option Sign
  compare_ids a b = compare_stream_ids c.big_int (codes a) (codes b)

  -- XRANGE with an exclusive start: the entries behind the cursor.
  unfoldable pub entries_after : String → List Entry → List Entry
  unfolding is_above
  entries_after since [] = []
  entries_after since (e ∷ entries) =
      if is_above c (compare_ids e.id since)
      then e ∷ entries_after since entries
      else entries_after since entries

  -- The ids rise along the list.
  abbrev pub IsAscending : List Entry → Type 0
  IsAscending [] = Unit
  IsAscending (e ∷ entries) =
      All (λ d. compare_ids e.id d.id ≡ some below) entries × IsAscending entries

  not-false : {o : Option Sign} → is_above c o ≡ false → o ≡ some above → ⊥
  unfolding is_above
  not-false {o} h r = ground arith

  -- An entry before one that is not behind the cursor is not behind it either.
  not-above :
      (d e since : String)
      → compare_ids d e ≡ some below
      → compare_ids e since ≢ none
      → is_above c (compare_ids e since) ≡ false
      → is_above c (compare_ids d since) ≡ false
  unfolding is_above
  not-above d e since p q h = go (compare_ids e since) refl
    where
      go : (o : Option Sign) → compare_ids e since ≡ o → is_above c (compare_ids d since) ≡ false
      go none r = absurd (q r)
      go (some above) r = absurd (not-false h r)
      go (some below) r =
          rw ((compare_stream_ids_order c.big_int (codes d) (codes e) (codes since)).1 p r)
      go (some same) r =
          let turned : compare_ids since e ≡ some same =
            (compare_stream_ids_order c.big_int (codes since) (codes e) (codes e)).0
            ∙ ap flip_result r in
          let back : compare_ids e d ≡ some above =
            (compare_stream_ids_order c.big_int (codes e) (codes d) (codes d)).0
            ∙ ap flip_result p in
          let there : compare_ids since d ≡ some above =
            (compare_stream_ids_order c.big_int (codes since) (codes e) (codes d)).2 turned
            ∙ back in
          rw (
            (compare_stream_ids_order c.big_int (codes d) (codes since) (codes since)).0
            ∙ ap flip_result there)

  last-of-All :
      (P : Entry → Type 0) (dropped stream : List Entry) (e : Entry)
      → All P (dropped ++ e ∷ stream)
      → P e
  last-of-All P [] stream e a = a.0
  last-of-All P (d ∷ dropped) stream e a = last-of-All P dropped stream e a.1

  entries_after-dropped :
      (since : String) (dropped stream : List Entry) (e : Entry)
      → IsAscending (dropped ++ e ∷ stream)
      → compare_ids e.id since ≢ none
      → is_above c (compare_ids e.id since) ≡ false
      → entries_after since (dropped ++ e ∷ stream) ≡ entries_after since (e ∷ stream)
  unfolding entries_after
  entries_after-dropped since [] stream e a q h = refl
  entries_after-dropped since (d ∷ dropped) stream e a q h =
      rw (not-above d.id e.id since (last-of-All _ dropped stream e a.0) q h)
        (entries_after-dropped since dropped stream e a.1 q h)

  -- Where Redis has dropped any number of entries from the front of a stream with rising ids, and
  -- the cursor, comparable with the first entry left and not the sentinel `0-0`, is not found to be
  -- trimmed: a replay of what is left behind the cursor is a replay of all that ever was behind it.
  pub run_replay_complete :
      (since : String) (dropped stream : List Entry) (e : Entry)
      → IsAscending (dropped ++ e ∷ stream)
      → since ≢ "0-0"
      → compare_ids e.id since ≢ none
      → is_trimmed c (first e.id) since ≡ false
      → run_replay c true since (first e.id) (some (entries_after since (e ∷ stream)))
        ≡ replayed c since (entries_after since (dropped ++ e ∷ stream))
  run_replay_complete since dropped stream e a n q h =
      rw (entries_after-dropped since dropped stream e a q (kept h))
        (run_replay_lem c since (first e.id) (entries_after since (e ∷ stream)) h)
    where
      kept : is_trimmed c (first e.id) since ≡ false → is_above c (compare_ids e.id since) ≡ false
      kept h = unfold is_trimmed trim_test in rw (if_neg (string_discrete since "0-0") n) at h
