-- ===== src/Ws/Replay/Complete.antt =====
-- What a client gets from a replay of apps/ws/src/replay.ts.
use block_docs.Base.{
  ◌+◌, ◌≡◌, refl, ◌∙◌, String, true, false, none, some, List, [], ◌∷◌, ◌++◌, arith, length,
  append_assoc, append-nil,
}
use block_docs.Ws.Protocol.{ServerMessage}
use block_docs.Ws.Replay.{
  Entry, XInfo, Outcome, skips, advances, sends, Codec, Run, Loop, round, walk, outcome, send_frame,
  is_trimmed, finish, replay_from, run_replay,
}

-- The frame of an entry, if it has one, in front of the frames of the later ones.
abbrev pub frame_of : Outcome → List ServerMessage → List ServerMessage
frame_of (sends frame) rest = frame ∷ rest
frame_of _ rest = rest

abbrev pub cursor_of : Outcome → String → String → String
cursor_of skips last id = last
cursor_of _ last id = id

module _ (c : Codec) where
  unfoldable pub frames : List Entry → List ServerMessage
  frames [] = []
  frames (e ∷ entries) = frame_of (outcome c e) (frames entries)

  -- The id of the last entry that was not skipped.
  unfoldable pub cursor : String → List Entry → String
  cursor last [] = last
  cursor last (e ∷ entries) = cursor (cursor_of (outcome c e) last e.id) entries

  -- The run that writes the frames of the entries, in order, and the new cursor behind them.
  abbrev pub replayed : String → List Entry → Run
  replayed since entries = record {
    written = frames entries ++ ServerMessage.replay_done (cursor since entries) ∷ [];
    closed = none;
    result = some (record {
      trimmed = false;
      last_stream_id = cursor since entries;
      frames_sent = length (frames entries);
    });
  }

  walked : List Entry → Loop c → Loop c
  walked entries s = record {
    last = cursor s.last entries;
    count = s.count + length (frames entries);
    written = s.written ++ frames entries;
  }

  walked-round :
      (o : Outcome) (e : Entry) (entries : List Entry) (s : Loop c)
      → outcome c e ≡ o
      → walked entries (round c true o e.id s) ≡ walked (e ∷ entries) s
  unfolding walked round frames cursor send_frame
  walked-round skips e entries s h = rw h
  walked-round advances e entries s h = rw h
  walked-round (sends frame) e entries s h =
      rw h (ground (arith, append_assoc s.written (frame ∷ []) (frames entries)))

  walk_lem : (entries : List Entry) (s : Loop c) → walk c true entries s ≡ walked entries s
  unfolding walk
  walk_lem [] s = unfold walked frames cursor in ground (arith, append-nil s.written)
  walk_lem (e ∷ entries) s =
      walk_lem entries (round c true (outcome c e) e.id s)
      ∙ walked-round (outcome c e) e entries s refl

  -- On an open socket, where the cursor is not found to be trimmed, a replay writes the frames of
  -- the entries in their order and then the new cursor, and counts the frames.
  pub run_replay_lem :
      (since : String) (info : XInfo) (entries : List Entry)
      → is_trimmed c info since ≡ false
      → run_replay c true since info (some entries) ≡ replayed since entries
  unfolding run_replay replay_from finish send_frame walked
  run_replay_lem since info entries h =
      rw (h, run_replay)
        (rw (walk_lem entries (record { last = since; count = 0; written = [] })) (ground arith))
