-- ===== src/Lib.antt =====
-- ChonKV: a replicated key-value store on Raft. This library models the consensus core under
-- src/raft, the byte format of its messages (src/labrpc/codec.h), the frames around them
-- (src/labrpc/epoll/wire.h), the log behind a node (src/persist), the key-value server on top and
-- the linearizability checker that tests it (src/kvraft).
--
-- A node (`class Raft`) is one record, Raft/State `RaftState`. Each handler of src/raft/raft.cpp
-- runs under the lock mu_ and is one function from the state to the state and its reply:
-- - Codec: labrpc/codec.h, `Encoder` and `Decoder`: what an encoder call writes is a list of bytes,
--   a decoder call takes the bytes left.
-- - Frames: labrpc/epoll/wire.h, the frames of requests and replies, and `FrameReader`.
-- - Raft/Types, Raft/Wire: raft/raft_protocol.h, the messages, and their Serialize and Deserialize.
-- - Raft/State: raft/raft.h, the state; ConvertToFollowerLocked, PersistLocked,
--   EncodeRaftStateLocked.
-- - Raft/Vote: RequestVote, RequestPreVote. Raft/Election: StartElection, StartRealElection, the
--   reply callbacks, BecomeLeaderIfQuorumLocked, CheckQuorum in ElectionTimerLoop.
-- - Raft/Append: AppendEntries. Raft/Replicate: ReplicateLoop, what a round sends to one server and
--   what the replies change. Raft/Commit: AdvanceCommitIndexLocked. Raft/Propose: Start,
--   ProposeConfChangeTo.
-- - Raft/Apply: ApplyLoop, one function for a round. Raft/Blob: EncodeSnapshotBlob,
--   DecodeSnapshotBlob. Raft/Recover: ReadPersist and the start of a node from its disk.
-- - Raft/Reads: ReadIndex, BroadcastReadHeartbeat, RecordReadAckLocked; the state of reads
--   (active_read_) is a record beside RaftState, and what happens while a caller waits is a
--   sequence of events.
-- - Raft/Crc, Raft/Snapshot: Crc32, SaveSnapshotBlob, Snapshot, InstallSnapshot; each critical
--   section is a function.
-- - Kv/Messages, Kv/Sessions, Kv/Server: kvraft/common.h, `SessionTable` of kvraft/server.h, and
--   ApplierLoop of kvraft/server.cpp with the state it guards by mu_.
-- - Kv/Snapshot: EncodeSnapshotLocked, ApplySnapshotLocked, PrepareSnapshotLocked and the arm of
--   ApplierLoop for a snapshot. Kv/Rpc: the clients' messages. Kv/Requests: Get, GetStale,
--   PutAppend, WaitOp and ForceSnapshotOnDiskFull; a wait is the list of what is found at its
--   turns, with the events of the other threads in between.
-- - Porcupine: kvraft/porcupine.cpp, the linearizability checker: MakeLinkedEntries.
--   Porcupine/Search: CheckSingle. Porcupine/KvModel: kvraft/kv_model.cpp, PartitionHistory,
--   CheckParallel and CheckOperations; Porcupine/Members, Times, Lifted, Left, RealTime, Holds and
--   KvModel/Partition have the lemmas on times and keys. A partition runs alone, since another one
--   ends it early only where the verdict is not Ok in any case.
-- - Store: persist/log, the memory store and the segment file.
-- The handlers call each other as the code does: Start and ProposeConfChangeTo append to the log
-- and its store and then advance the commit index; the reply callbacks step down or take office.
--
-- Terms, indices and offsets are int64_t that the code keeps nonnegative, and natural numbers here;
-- node ids and frozen indices keep their sign. A value read from the wire is bounded by its machine
-- type, and the round trips say so. Time is milliseconds handed in by the caller. All loops are
-- structural, but for the encoder of a varint, which is recursive on the order of the numbers, and
-- the loop that cuts a snapshot into chunks, which has one round for each byte and one more: every
-- round but the last takes a byte at least. CheckSingle runs on fuel, as many rounds as
-- Porcupine/Search `rounds` gives for a list; that it comes to a verdict with them is a theorem.
--
-- Not modelled of src/raft: the starting and stopping of its threads. Not modelled of src/kvraft:
-- the client. Not modelled of src/labrpc: the transports, which need sockets and timers. Not
-- modelled anywhere: threads, condition variables and the moments at which a handler gives up the
-- lock; the flushing threads and failures of system calls; metrics and traces; sockets.
-- PersistLocked is one step.
pub mod Base
pub mod Codec
pub mod Frames
pub mod Kv
pub mod Porcupine
pub mod Raft
pub mod Store
