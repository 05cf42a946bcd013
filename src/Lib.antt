-- ===== src/Lib.antt =====
-- Agent action visualizer: what its event pipeline computes, and why it is right.
--
-- An adapter beside a coding agent reports what the agent does as events (protocol/go). The
-- application takes them in through a duplicate filter and a bounded queue (internal/ingest), keeps
-- for each session which file has the focus and since when (internal/session), counts the lines that
-- changed while a file had it (internal/diff), and rebuilds a session from its stored events
-- (internal/replay). In the adapter, paths are kept inside
-- the project (adapter/go/path.go), a wrapper of the agent's command holds back what the file system
-- reports until a hook has told the same, and it shows a copy of the output to a parser
-- (adapter/go/wrapper). One of its sources of events watches the project's files
-- (internal/adapters/filesystem).
--
-- Files and the code they model:
--   Prelude        texts as lists of bytes, Go's int, int64 and time arithmetic, maps as association
--                  lists, a sort, utf8.Valid, and path/filepath on Unix
--   Protocol       protocol/go/event.go: the event (Event) and its metadata (Value)
--     Metadata     validateString and validateMetadataValue
--     Validate     Event.Validate and validateMetadata, with encoding/json a parameter
--   Session        internal/session/engine.go
--     Interval     AccessInterval, current, closeCurrent, appendUnique, mergeDelta
--     State        State, focusPriority, secondaryPaths, and Apply on one session (`step`)
--     Engine       the methods of Engine; Engine/History has the runs of them
--   Ingest         internal/ingest
--     Queue        queue.go: Offer, Pop, highValue, isCoalescible
--     Dedupe       dedupe.go: Duplicate
--     Collector    collector.go: Submit, drain and run, as a step relation
--   Diff           internal/diff/pipeline.go
--     Lines        splitLines and the functions of bytes and strings that are called
--     Snapshot     countSnapshots
--     Patch        countPatch
--     Request      Request, Result, newResult and resolveDirect
--     Batch        process, with the git runner a parameter
--     Pipeline     Offer, publish and rememberLocked, as a step relation
--   Replay         internal/replay/replay.go: canonicalEvents
--     Reconstruct  applyDiff and Reconstruct, over the session engine
--   Adapter        adapter/go
--     Path         path.go: NormalizeProjectPath, rejectSymlinkEscape and pathWithin, on Unix, with the
--                  file system a parameter
--   Wrapper        adapter/go/wrapper
--     Evidence     evidence.go: Emit, flushEvidence, sortStrings and the worker, on Unix, as a relation
--                  of steps (Reach)
--     Stream       stream.go: offer, the worker and tapWriter.Write, as a relation of steps
--     Delivery     delivery.go: Emit, emitFinal, validEvents and the worker, as a relation of steps in
--                  which a batch is sent in one and its channel closed in another
--   Filesystem     internal/adapters/filesystem/observer.go
--     Change       fileState, pendingChange, sameFingerprint, needsRenameWindow, deleteStateTree
--     Accept       acceptChange and observedPath, with the file system and the ignore rules parameters
--     Ready        readyChanges
--     Renames      correlateRenames
--     Events       changeEvent, renameEvent, droppedEvent; Batch has eventsForBatch
-- Each child module named for a property (Bounds, Order, Timeline, Focus, Window, Minimal, ...) holds
-- the lemmas for it, and each part has its tests in Tests.
--
-- How the code is read:
--   - A method that locks a mutex for its whole body is a function from the old object to the new
--     one and the results. A history of calls is a list of them, run in order.
--   - A string is the list of its bytes. A time.Time is the number of nanoseconds since the zero
--     time; time.Time.Sub saturates at the bounds of int64, as documented. A time.Duration and an
--     int64 are integers, with the wrap-around of window*2, of the int count of a pending change and
--     of the uint64 counters written out; int is 64 bits wide.
--   - A pointer to a number that may be nil is an Option. Go maps are association lists, in which a
--     lookup finds the last write. Only correlateRenames depends on the order of one, that of
--     evidence.Renames, and what is proved of it holds for each order.
--   - A constant of a string type is a constructor, and any other string is `other`.
--   - clone copies a State, and a value needs no copy. A pointer into a slice of intervals that is
--     written through is a function applied to the last interval.
--   - The collector, the diff pipeline, the evidence gate, the tap and the delivery queue have a worker
--     and any number of callers, so each is a relation of steps, a step being one critical section or
--     channel operation; what holds after all steps holds in every interleaving.
--   - Loops are structural recursion, but for the loop of streamTap.offer. It runs on as much fuel as
--     there are bytes, and each round takes at least one. The digits of an event's number run on 20,
--     enough for a uint64.
--
-- What is not modelled: normalization and the security filter, whose regular expressions and Unicode
-- tables are large; the end of the collector; the graph, the activity history, the codex adapter; of
-- the filesystem observer its loop and the output of git; of the adapter library its descriptor and
-- its bounded emitter; and of the wrapper the lifecycle events and the processes. Nor are the
-- database, the sockets and the desktop window, which are input and output.
pub mod Prelude
pub mod Protocol
pub mod Diff
pub mod Adapter
pub mod Wrapper
pub mod Filesystem
pub mod Session
pub mod Ingest
pub mod Replay
