-- ===== src/Lib.antt =====
-- A verification library for thaum-painter, a painting program for cell graphics on a canvas in
-- three dimensions, with layers whose properties are animated by bars on tracks (Rust).
--
-- The parts and their files:
--
-- - Base: lists and signed integers over the native numbers, texts as lists of character codes,
--   `u32` arithmetic with its wrap-around and its saturating forms, maps as association lists over
--   an interface of decidable equality. A `BTreeMap` or a `BTreeSet` is such a list; the order in
--   which it iterates is not modelled.
-- - Breath: domain/painter-document/properties/properties.rs and pieces/pieces.rs. The spans of
--   breaths, the two ways in which an edited span pushes or destroys its neighbours
--   (`pushed_breath_span`, `destructive_breath_span`) and the lookup of the bar under a breath.
-- - Track: the stored bars of a property track (domain/file/storage/storage.rs,
--   domain/painter-document/properties/interp_mode.rs). Track/Retile is `retiled_property_track`,
--   with which the edits that move, blank or retime bars end, Track/Ids the ids that it mints,
--   Track/Mode the modes of empty bars. Track/Tiling says what the binary tiling is. Track/Edit
--   holds the writes of single edits to the bars: splitting, swapping, merging, duplicating and cycling.
-- - Document: the layers of `SharedDocumentRuntime` with the canvases of their bars, and the edits
--   that reach a track through them (domain/file/storage/storage.rs). An edit returns what the source
--   returns, with the runtime after it.
-- - History: the log of a document (domain/file/storage/storage.rs). History holds patches of cells,
--   action records and the runtime that keeps them; History/Painted the painting of patches into a
--   raster bar, History/Apply `apply_action_record`, History/Opened `new` and `replay`, History/Undo
--   staging, undo and redo, History/Fold `fold_history`. `HistoryRuntime` is `SharedDocumentRuntime`
--   with the layers and canvases of Document as one field. An `entry().or_default()` reads nothing as
--   an empty list and writes the entry. History/Reached has the steps of an open document.
-- - Timeline: the playhead (domain/painter-session/timeline-state/timeline_state.rs).
-- - Cell: cells, colors and canvases (domain/painter-operations/brush/brush.rs,
--   domain/painter-session/paint-color/paint_color.rs). Cell/Stored is a cell as the log stores it
--   (domain/file/storage/storage.rs).
-- - Plane and Fill: the bounds of an edit and the fill
--   (domain/painter-operations/fill/fill.rs). Fill/Flood is the flood loop over any type of places.
-- - Selection: domain/painter-session/selection/selection_state.rs.
-- - Relay: the relay of sessions over the internet (workers/session-relay/). Relay/Frames is the
--   framing of relay_protocol.rs and the reading loop of relay_server.rs, Relay/Codes relay_codes.rs,
--   Relay/Rooms the registry of relay_server.rs: each handler takes the registry and returns it with
--   what it sends. Relay/Served has the steps that connections take. A stream is the list of its
--   reads; a read that times out changes nothing and is left out. A text on the wire is its UTF-8
--   bytes. A queue is named by its room and user, and what stands in it is what was sent.
-- - Session: the host of a session (workers/session-host/session_host.rs). Session has its state and
--   the operations of the hosting app, Session/Handled the messages of clients, Session/Served the
--   runs of a host beside one of its clients. `Entry` is the record of an action, which the host
--   only copies, and `Snapshot` the document that its source gives. Times are in milliseconds.
-- - Sync: sessions over one log (domain/painter-session/sync/document_sync.rs), each with a runtime
--   of History. Sync/Watched has the runs of a session that watches the log.
--
-- The editing of a document goes from the selection and the fill, which choose points, to the canvas
-- of the bar under the playhead; the bars are kept tiled by Track/Retile, so that the playhead of
-- Timeline always finds one.
--
-- A stroke goes from there into the log: its patches are staged on the canvas, its record is applied,
-- and undo and redo move it between the two stacks of its layer and log a record of their own.
--
-- Parameters. `Value` stands for `serde_json::Value`, the payload of a bar, which the code only
-- copies. The record `Renderer` stands for what the painter takes from the crate
-- `thaum_renderer_domain`: the payloads of sprites and sided graphics with their equality and the
-- texts that they are stored as.
-- Storing a cell relies on `StoresPayloads`: a sprite is made again from its path, a sided declaration
-- is read back from its text. The random bytes of invite codes and the clock are arguments. A frame
-- of JSON is given by the three fields that the relay reads of it.
--
-- Numbers. A `u32` is a native number, with `+` and `-` written as `add32` and `sub32`, which wrap
-- around; a coordinate is an integer whose steps wrap around at 32 bits.
--
-- Fuel. The flood loop has one pass for its start and 28 for each place of its region: a place puts
-- its neighbors on the queue only once, and there are 27 at most. The loop that looks for a free
-- number in `next_property_block_id` has one step for each number in use, and the loop that lengthens
-- an id one for each id in use.
--
-- The reading loop of a connection recurs on the reads that are left, and `read_frames` on a number of
-- frames, of which any that is at least the number of texts sent is enough. The loop that mints a room
-- has the source's 64 turns.
--
-- Not modelled: the pushed and destructive timing edits of a document, its selection channels, files
-- and serialisation, interpolation, the lasso, text entry, the clipboard, the clients of sessions,
-- sockets and TLS, the panels and the application.
pub mod Base
pub mod Breath
pub mod Track
pub mod Timeline
pub mod Cell
pub mod Plane
pub mod Fill
pub mod History
pub mod Relay
pub mod Session
pub mod Sync
pub mod Selection
pub mod Document
