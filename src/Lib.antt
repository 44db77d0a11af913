-- ===== src/Lib.antt =====
-- The synchronization core of Mutagen: the algorithms between the scan of two file trees and the
-- changes that are made to them.
--
-- A synchronization session keeps an ancestor, the last state that both endpoints agreed on. In
-- each cycle the session loop of pkg/synchronization/controller.go scans both endpoints (alpha and
-- beta), turns phantom directories into tracked or untracked ones, propagates executability to the
-- side that does not preserve it, checks that no side emptied its root, reconciles, checks that no
-- root is deleted or changes its type, stages the files that the changes need, makes the changes,
-- and applies what was achieved to the ancestor. The algorithms between those steps are pure
-- functions on trees of entries in pkg/synchronization/core. They are what this library models.
--
-- Files:
--   Base: the library names that all files share, Boolean tests, lists, byte strings.
--   Path: root-relative paths (pkg/synchronization/core/fastpath/fastpath.go): Joinable, Dir
--     and Base, and the strings.Split that Apply uses. Path/Join, Path/Parent: their lemmas.
--   Entry: the type Entry, content maps and nameUnion (core/entry.pb.go, core/iterate.go).
--     Entry/Compare: Equal. Entry/Copy: Copy and synchronizable. Entry/Measure: walk, Count and
--     Problems. Entry/Validity: EnsureValid (all of core/entry.go).
--     Entry/Shallow, Entry/Tree, Entry/Copied, Entry/Deep, Entry/Names: their lemmas; Entry/Tree addresses the
--     nodes of an entry by lists of names.
--   Change: Change, Conflict, Diff (core/change.go, core/conflict.go, core/diff.go).
--     Change/Validity: their EnsureValid. Change/Diff, Change/Validity/Slim: theorems.
--   Reconcile: Reconcile and its reconciler (core/reconcile.go), each handler a function.
--     Reconcile/Kept, Locate, Sound, Safety, Agreement, Differ, Conflicts: its lemmas and theorems.
--   Apply: Apply (core/apply.go). Apply/Writes, Under, Roundtrip, Laws: its lemmas and theorem.
--   Phantom: ReifyPhantomDirectories (core/phantom.go).
--   Executability: PropagateExecutability (core/executability.go).
--   Staging: TransitionDependencies (core/stage.go).
--   Safety: the checks of pkg/synchronization/safety.go.
--   Link: normalizeSymbolicLinkAndEnsurePortable (core/symbolic_link.go). Link/Portable,
--     Link/Inside: about the targets that it lets through, and how a system follows them.
--   Session: the state of a session, its endpoints and the defaults of its configuration
--     (pkg/synchronization/controller.go, state.pb.go, endpoint.go, version.go). Session/Saving
--     and Session/Cycle: synchronize, from the phases of a round to the loop. Session/Kept, Quiet,
--     Halts, Losses: theorems; Reconcile/RootDeletion: the part of Losses about plans.
--   Rsync: signatures, operations and their EnsureValid (pkg/synchronization/rsync/engine.go).
--     Rsync/WeakHash: weakHash and rollWeakHash. Rsync/Signing: BytesSignature. Rsync/Delta:
--     Deltify and DeltifyBytes. Rsync/Patching: Patch and PatchBytes. Rsync/Blocks, Patched,
--     Sending, Found, Deltified, Roundtrip, Valid, WeakHash/Rolling: their lemmas and theorems.
--   Ring: the buffer of pkg/multiplexing/ring/buffer.go that the multiplexer's streams receive
--     into. Ring/Layout: where the bytes of a queue stand in the storage. Ring/Write, Advance,
--     Read: its operations. Ring/Refine: sequences of calls, and the queue that they are compared to.
--     Ring/Streams: ReadNFrom and WriteTo. Ring/Filling, Ring/Draining: about these.
--   Multiplexing: the messages, streams and state of pkg/multiplexing/multiplexer.go and stream.go.
--     Multiplexing/Receiving: what the reader does with a message. Multiplexing/Sending: Read, Write,
--     opening, accepting and closing between their waits. Multiplexing/Flow: one direction of a
--     stream as a step relation; Credit, Steady, Moves, Arrivals: its invariant; Starving: what reads
--     of no bytes do to it; Ring/Supplied: the part of it about ReadNFrom. Multiplexing/Events:
--     messages and calls as a step relation on all streams of a multiplexer; Registry, Messages,
--     Opening: its invariant. Multiplexing/Protocol: the wire format of protocol.go.
--   Tracking: the tracker of pkg/state/tracker.go, which tells the daemon's pollers of changes.
--     Tracking/Steps: the interleavings of its loop and its methods as a step relation.
--     Tracking/Reachable: what holds in every state that the steps lead to.
--   Tests: runs on concrete input.
--
-- How the code is represented. A nil entry pointer is the constructor nil. A content map is an
-- association list in the order of its iteration, and a nil map is kept apart from an empty one; a
-- missing key reads as nil. Two entries agree if at every address of names both are nil or both
-- are nodes with matching fields: this forgets the order of maps and what Equal forgets. A byte
-- string is a list of numbers. Entries are values: what the code mutates through a pointer is part
-- of a function's result. Apply's deep copy shares its leaves with the base, and this sharing is
-- left out. The lists that the reconciler and the differ append to are the lists that their methods
-- return; the reconciler's items are marked with the list that they go to, and a panic or an end
-- of the fuel is an item that leaves no result. A map of a valid entry holds no nil entry; where one
-- that is not valid does, Apply and ReifyPhantomDirectories go on with a copy, while the code panics. Errors are named for their messages. The counters of 64 bits wrap around.
--
-- Recursion along an entry is structural. Where the recursion is on several entries at once it
-- takes fuel, one unit for each level: diff takes the levels of its target and one more (at an
-- address below them the target is nil, and so is the base, or they differ and the recursion
-- stops), reconcile those of alpha and one more (it goes on only where alpha is a node), and the
-- reification of phantom directories those of the deeper side and one more.
--
-- The variable-length integers are read and written in ten bytes at most, as binary.MaxVarintLen64
-- says; this is enough for 64 bits.
--
-- The loops take fuel, one unit for each round: the search of Deltify and its chunking the length
-- of the target and one more, the sending of data the length of the data, the signature the length
-- of the base and one more, a write to the ring buffer the length of the data and one more, a read
-- the wanted length and one more; ReadNFrom takes the number of bytes and one more, WriteTo the
-- number of bytes held and one more. Each round consumes a byte at least, or an error ends the loop,
-- so that this is enough, and the theorems say that a result is returned.
--
-- The synchronization loop is a function of the endpoints, which act on a world of any type, and of
-- what each round meets beside them: how polling ends, whether there is a cancellation, whether the
-- archive can be saved. The scans of both sides run at the same time, and so do the transitions:
-- here alpha's come first. The loop runs as many rounds as it is given circumstances for.
--
-- The tracker's methods hold a lock, so that a step is one critical section: a round of the loop, the
-- part of a method up to its wait, or a cancellation. The condition variable is a mark whether the
-- loop waits, the channel of a request a list of the responses sent to it.
--
-- The strong hash of the rsync engine (SHA-1), the block size's square root and the transmitter are
-- parameters, and so are the streams of the ring buffer and the carrier of the multiplexer. Readers
-- of the rsync engine are byte strings, so that they do not fail.
--
-- A channel that signals readiness has room for one signal and is a Boolean; a send to one that is
-- full would block its sender, which holds a lock, for ever, and is an outcome of its own. The moves
-- of the two ends of a stream are critical sections, in any order; messages of a direction arrive in
-- the order in which they are sent.
--
-- Not modelled: scanning and transitions, which work on the file system (core/scan.go,
-- core/transition.go); the rules for ignores; the connections of sessions, endpoints, agents, services and the command
-- line, which are processes, connections and goroutines; the transport of rsync operations; the
-- multiplexer's deadlines and heartbeats; the other libraries below pkg; generated code but for the message types named above.
pub mod Base
pub mod Path
pub mod Entry
pub mod Change
pub mod Apply
pub mod Reconcile
pub mod Phantom
pub mod Safety
pub mod Staging
pub mod Rsync
pub mod Link
pub mod Session
pub mod Ring
pub mod Tracking
pub mod Executability
mod Tests
pub mod Multiplexing
