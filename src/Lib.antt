-- ===== src/Lib.antt =====
-- A model of gazette's brokers and recovery logs, of its second version under v2/pkg, and the theorems
-- that make them correct.
--
-- A broker spools the content of a journal into a local file (v2/pkg/fragment/spool.go). The primary
-- of a journal streams content to its replicas, proposes the fragment that extends it, and each spool
-- commits or refuses the proposal. Committed fragments, and those listed in remote stores, are held by
-- an index (v2/pkg/fragment/index.go) in cover sets (v2/pkg/fragment/cover_set.go), which reads of the
-- journal query. Consumers record the operations of a database in a recovery log, and play them back
-- through a machine (v2/pkg/recoverylog/fsm.go) which takes hints of the segments of the log
-- (v2/pkg/recoverylog/segment.go) that still matter. Specifications and assignments are kept in Etcd,
-- which each process mirrors as a key space (v2/pkg/keyspace) by applying the responses it watches; an
-- allocator (v2/pkg/allocator) changes the assignments of items to members there.
-- Messages of a journal are framed (v2/pkg/message).
--
-- The files:
--   Prelude and its children: library names passed on, Boolean tests and lists over native numbers,
--     byte strings.
--   Go/Search: sort.Search of Go's library, which halves a range; the fuel is the length of the range,
--     and each round shortens it. Go/Map: maps as association lists whose writes drop older entries.
--   Protocol/Fragment: the Fragment message (v2/pkg/protocol/protocol.pb.go), its equality and
--     emptiness.
--   Protocol/Validator: ValidateToken and the validation of labels and sets (v2/pkg/protocol/validator.go
--     and label_extensions.go); Accepts says what they accept.
--   Protocol/Label: ValuesOf, ValueOf, SetValue, Remove and AddValue of
--     v2/pkg/protocol/label_extensions.go; Split and Setting state the first four by the labels of a
--     name and the others, and Adding is about the last. Label/Join is its join of two sets, with a
--     label of them for each round of fuel; Groups is about a step of it, Algebra about union,
--     intersection and difference, and Values, Matching and Selecting about the matching of selectors.
--   Fragment/CoverSet: CoverSet.Add, LongestOverlappingFragment and CoverSetDifference. Order states
--     the order that a cover set documents and which offsets it covers; Insert, Adding and Invariant
--     prove what Add does to both; Longest and Difference are about the other two functions.
--   Fragment/Index: NewIndex, Query, SpoolCommit and ReplaceRemote. A query that blocks is given the
--     states of the index that wake it, as a list. Query and Refresh prove what they answer and keep.
--   Fragment/Spool: NewSpool, Apply, MustApply, Next and the functions they call. State says when the
--     file, the sums and the fragment agree; Commit describes a proposal's outcome; Replication and
--     Compression have the theorems.
--   RecoveryLog/Segment: Validate, reduceSegment, SegmentSet.Add and Intersect. Order is about a
--     reduction of two segments, Loop and Adding about the loop and splice of Add, Placing about
--     the whole of it, and Overlap about Intersect.
--   RecoveryLog/Fsm: FSM.Apply and the functions it calls. Invariant, Steps, Unlink and Dispatch show
--     that each operation keeps the maps in agreement, Kept what none of them touches, Apply is a whole
--     step.
--   RecoveryLog/Recorder: the calls of v2/pkg/recoverylog/recorder.go, which write operations to the log
--     and apply them to the recorder's machine. Turning, Stepping and Operations are about one operation,
--     Moves about one step of a call, and Calls about whole calls against the file system they record.
--   RecoveryLog/Copy: copyFixed of v2/pkg/recoverylog/playback.go, with a byte to copy for each round of
--     fuel, and with the length of either sign; Total shows that it ends. RecoveryLog/Player: playOperation of that file. Nodes and Facts say
--     which Fnodes an operation leaves live, Staged that the staged files are theirs, Play puts it
--     together.
--   RecoveryLog/Replay: recorder and player on one log. Bare and Step leave the offsets of segments out
--     of a step of the machine, Frames is about an operation that is recorded and read back.
--   RecoveryLog/Hints: LiveLogSegments and NewFSM; Start shows that what they give is fit to play.
--   KeySpace: the mirror of Etcd's keys (v2/pkg/keyspace), its lookups and the update of its last
--     element; KeySpace/Apply is KeySpace.Apply, with a response for each round of fuel and one for each
--     of its events. Tail, Around and Round say what an event does to each value, Order and Drain in which
--     order the heap gives events out, Loop and Applying put these together; Ranges is about lookups.
--   Message/Reader: Go's bufio.Reader; Message/FixedFraming: the fixed framing of messages
--     (v2/pkg/message/fixed_framing.go). Words is about the magic word and the length of a frame,
--     Unpacking about what Unpack takes, RoundTrip about reading what was written, and Desync about a
--     jumbled frame. Message/Lines is UnpackLine of v2/pkg/message/routines.go, and Splitting what it
--     reads.
--   Broker/Pipeline: the pipeline of v2/pkg/broker/pipeline.go by which a primary brings its peers to
--     one fragment; a round is a proposal and its answers, and the rounds that happen are a list.
--     Gathering is about the responses, Agreement about a round, Rolling about a spool that is behind
--     the offset the proposal is moved to, and Convergence about a round after
--     which all agree, with replicas that validate and answer as Broker/Replicate (serveReplicate of
--     v2/pkg/broker/replicate_api.go, and the validation of a request in v2/pkg/protocol) does.
--   Allocator/ItemState: the changes of one item's assignments, v2/pkg/allocator/item_state.go, with a
--     round of fuel for each current and desired assignment. Comparing is about the order of
--     assignments, Walk about the joint walk of the two lists, Removals about the assignments that are
--     released, Primary about the one promoted, and Packing about the one moved to a lower slot.
--   The modules called Examples, and Fragment/SpoolExamples, RecoveryLog/RecorderExamples
--     and RecoveryLog/PlayerExamples: the theorems at concrete states.
--
-- Conventions. Offsets, sequence numbers and times are int64s in the program, which it keeps at or
-- above zero: they are natural numbers here, below the largest int64. The offset and the length of a
-- recorded write, which a player reads from a log, are the bits of an int64 of either sign. A panic is
-- a result `none` or `panics`. File operations that the program retries until they succeed are their success. SHA1, the
-- codecs, crc32 and the signing of URLs are parameters. Locks are not modelled: an operation that the
-- program guards by a mutex is one step.
--
-- Not modelled: the broker's RPC handlers, the allocator's network and its
-- loop, the transactions it builds, the calls of Etcd by the key space, the
-- mapping of messages to journals, clients, consumers, the loop of a player
-- around its operations, and a recorder's hints and barriers. Stores of cloud
-- services, commands and wiring are calls of other systems. The first version
-- of gazette (pkg, cmd) is left aside, as v2 replaces it.
pub mod Allocator
pub mod Prelude
pub mod Go
pub mod Protocol
pub mod Fragment
pub mod RecoveryLog
pub mod Message
pub mod Broker
pub mod KeySpace
