-- ===== src/Lib.antt =====
-- block-docs: a collaborative block editor. A browser client (apps/web) holds a document as a tree
-- of blocks, changes it at once, and sends block operations and text deltas to a WebSocket server
-- (apps/ws); the server forwards operations to an API server (apps/api, Python), which validates
-- and stores them, and fans deltas out to the other clients of the document.
--
-- Which file models what (paths from the repository's root):
--   Base, Text, JsMap, Sort: what the code uses of JavaScript. `Text` is a string that is looked
--     into, as its UTF-16 code units with the order of `<`; a string that is only compared for
--     equality is the native `String`. `JsMap` is `Map` with its insertion order, `Sort` is the
--     stable `Array.prototype.sort` by a string key.
--   Lexorank: apps/web/src/lib/lexorank.ts. `midpoint`, with `scan` and `widen` for its two loops.
--     They take fuel: `scan` reads a character of one argument in each round, so the lengths and
--     one suffice; `widen` raises `i`, which the code bounds by 40, so 42 suffice.
--   Types: apps/web/src/lib/types.ts.
--   Store: apps/web/src/store/block-store.ts. `Store` has the state, `Store.Index` `rebuildIndex`,
--     `Store.Position` `computePosition`, `Store.Local` the local actions, `Store.Queue` the queue of
--     pending operations and the plain setters, `Store.Remote` `applyRemoteOps`, `handleAck` and
--     `handleNack`, `Store.Flatten` `flattenBlocks`. Its walk takes fuel for its depth: no branch
--     below the root is longer than there are blocks, so their number and one suffice. Actions are
--     functions from a state to the next; `set` of zustand is a record update. `newBlockId`
--     is an argument. `Store.Invariant` gathers the actions into one step, and its child `Sendable`
--     joins the queue to the server's schemas.
--   Editor: apps/web/src/editor and apps/web/src/components/editor. `Editor.Yjs` is
--     `YjsRegistry` of yjs.ts and `Editor.Marks` the inline nodes there, `Editor.Markdown`
--     paste-markdown.ts, `Editor.Renderer` inline-renderer.ts with the DOM as trees, `Editor.Input` and
--     `Editor.Toggle` the handlers of ContentEditableBlock.tsx and `Editor.View` what the block
--     shows after them, `Editor.Handlers` those of BlockEditor.tsx, and `Editor.SlashMenu` the
--     keyboard of SlashMenu.tsx. `Y.Text` is the interface `Editor.YText`: operations on an
--     unknown state, with laws that say what Yjs documents of them, away from halves of surrogate
--     pairs, which Yjs repairs; `Editor.Marks.Seed` is one for the formats of a new text. What the
--     DOM tells a handler of the selection is an argument. The renderings of the slash menu take fuel 3: the event's,
--     the one that the effect asks for, and one that finds nothing changed.
--
-- For the server, with the answers of Redis and of the API server as arguments, `BigInt`, `Number`,
-- `JSON.parse` and `Buffer` as functions that the definitions take, and sockets as numbers:
--   Ws.Config: apps/ws/src/config.ts.
--   Ws.Protocol: the frames of apps/ws/src/protocol.ts, and the zod schemas of the client's messages
--     as checks on JSON values (`Ws.Protocol.Schema`).
--   Ws.Room: `RoomRegistry` of apps/ws/src/room.ts, with the channels that the shared subscriber
--     holds. A frame sent to sockets is a list of who gets what. `Ws.Room.Pending` splits joins and
--     leaves at their awaits, where Redis answers commands in the order in which they were sent.
--   Ws.StreamId, Ws.Replay: `compareStreamIds` and `runReplay` of apps/ws/src/replay.ts.
--   Ws.Bus: the listener of apps/ws/src/bus.ts. The decimal digits of an id take fuel one above it.
--   Ws.Handlers: apps/ws/src/handlers/crdt.ts, ops.ts and awareness.ts. `Ws.Handlers.Ops.Client`
--     joins the answers of the ops handler to the client's store, as
--     apps/web/src/app/docs/[docId]/DocumentClient.tsx does.
--   Ws.Server: `decideUpgrade` of apps/ws/src/server.ts, the life of a connection there as steps
--     between the awaits of its listener, the dispatch of messages, the heartbeat and the shutdown.
--   WsClient: the class of apps/web/src/lib/ws.ts as a step function on events: calls, events of
--     sockets and timers. Sockets are numbered as they are made. `WsClient.Cookie` reads the user's
--     number from the cookies.
--   Base64: apps/web/src/lib/base64.ts. Each round of its loop takes 32768 bytes, so one round more
--     than there are bytes is enough fuel.
--   Blocks: the components of apps/web/src/components/blocks on a block's attributes, and
--     `Blocks.Upload` the upload of an image from ImageBlock.tsx over
--     apps/web/src/editor/image-upload.ts to apps/web/src/lib/api.ts.
--   DocumentClient: apps/web/src/app/docs/[docId]/DocumentClient.tsx, which joins the store, the
--     documents and the connection. Effects of React run after the rendering that follows an event.
-- A client's local action gives a batch (Store.Local), the ops handler forwards it and answers
-- (Ws.Handlers.Ops), the other clients hear it (Store.Remote); a text delta goes from the crdt
-- handler to the rooms, the bus and the stream, which a replay reads back.
--
-- Numbers are natural numbers: the code's depths, versions and sequence numbers are never negative
-- and stay far below 2^53.
--
-- Not modelled: the Python API server, rendering (React components, CSS) but for what is said above,
-- the libraries Yjs and marked, which are parameters or give the input, logging, and the
-- build and deployment files.
pub mod Base64
pub mod Blocks
pub mod Base
pub mod Text
pub mod Lexorank
pub mod JsMap
pub mod Types
pub mod Sort
pub mod Store
pub mod Ws
pub mod WsClient
pub mod Editor
pub mod DocumentClient
