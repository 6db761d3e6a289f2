-- ===== src/Lib.antt =====
-- eth2-validator: a client that signs the duties of Ethereum validators.
--
-- The scheduler (internal/scheduler/scheduler.go) asks the beacon node for the duties of an epoch
-- and makes a plan. The server puts the plan into the duty queue (internal/server/duty_queue.go),
-- where a duty waits for the duties it is blocked by, then in a delay heap
-- (internal/delayheap/delayheap.go) until its time, and then for a worker. The worker handles it
-- (internal/scheduler/duties.go): it signs, publishes to the beacon node, and keeps the result in
-- the state (internal/server/state), whose indexes are for the checks against slashing.
--
-- - Base, Array, GoMap: the conditional, the ways in which a Go call ends (`Go` for code that may
--   panic, `Try` for code that may also return an error), slices, and maps as association lists.
-- - DelayHeap: internal/delayheap/delayheap.go. Nodes has delayHeapNode, delayedHeapImp and the
--   memory that the pointers lead to; Sift the functions of container/heap; DelayHeap itself Push,
--   Pop, Peek, ContainsID, Contains, Update, Remove and Length. The loops of container/heap run on
--   fuel: up with j + 1 at the slot j, since each round goes to the parent, and down with n + 1 for
--   n slots, since each round goes to a child. The theorems say that the calls return.
-- - Duty: the messages of internal/server/proto/structs.pb.go and the helpers of types.go.
-- - DutyQueue: internal/server/duty_queue.go. Each call that holds the lock is a function of the
--   queue (Enqueue, Dequeue, Ack, nextDelayedEval, the timer of runDelayHeap); Loop has the loop of
--   runDelayHeap, with its timer, the tick in the timer's channel and the wake-ups that may be lost,
--   and Loop.Step, the relation of the interleavings of these with the passing of time.
-- - Bitlist: internal/bitlist/bitlist.go.
-- - Scheduler, Scheduler.Input: internal/scheduler/scheduler.go, Process and what it calls, with the
--   uint64 and the time.Duration of Times. The signer, the hash functions, the ids and the order of a
--   range over a map are the record Env.
-- - Scheduler.Epoch: HandleEpoch, with the beacon node and the state as the record Client.
-- - DutyLogic: internal/scheduler/duties.go. The beacon node and the state are the record Node.
-- - State.Index, State.Schema: internal/server/state/index.go and schema.go, the indexes of the two
--   tables. State.Memdb and State.Bolt are the interfaces of go-memdb, boltdb and the encoding of
--   protobuf, with their documented laws; a transaction of a library is a value, and what is not
--   committed is dropped.
-- - State.Store: internal/server/state/state.go, the tables in memory with the buckets on disk.
--   An object in a table is as it was when it was inserted: what a worker writes into it before its
--   UpsertDuty is in Server.Core's `written`, over which DutyByID looks; the lists and the queries by
--   an index give the objects as they were inserted.
-- - State.Slash: the two checks of that file against slashing.
-- - Server: what the server reads out of the table of duties: internal/server/service.go,
--   sync_beacon_committee_subscription.go and sync_committee_subscription.go. Server.Rounds has the
--   calls of the service, and the rounds of the subscriptions with what they send.
-- - Server.Signing, Server.Lifecycle, Server.Core: internal/server/server.go. Signing has Sign, with
--   the BLS library, encoding/hex and the hash functions as the record Crypto; Lifecycle a round of
--   validatorLifecycle, with the query at the beacon node as a parameter; Core has NewServer,
--   handleNewEpoch and what the worker does with a duty. Core.Turns.Turn is the relation of these
--   with the steps of the queue and with restarts: an epoch and the end of a duty are one step each,
--   the write of a result may be a step before the end, and between them any other may come. Loops
--   has the loop of watchDuties, which calls handleNewEpoch in a goroutine for each epoch, the
--   routines that Run starts, and Stop.
-- - Slashing: internal/slashing/format.go, with encoding/hex and encoding/json as the record
--   Encoding.
-- - Routines: internal/routine/routine.go, with the goroutines and channels of its routines as a step
--   relation.
-- - Command: internal/cmd/server, the command that starts the server, with internal/server/config.go.
--   pflag, HCL, mergo, strings.Split, the files, the signals and NewServer are the record Host.
-- - Client: internal/cmd/commands.go, duty_list.go, validator_list.go and validator_duties.go, the
--   commands that ask a server. pflag, gRPC, columnize and sort.Slice are the record Remote. The
--   decimal digits of n run on fuel n + 1, which is enough since each round divides by ten.
-- - Uuid: internal/uuid/uuid.go. Beacon: internal/beacon, the calls to the beacon node.
-- - Tests: runs on small inputs.
--
-- Not modelled: the watch channels of the tables, gRPC and telemetry, the timer of EmitStats, the
-- generated marshalling code, the help texts and the version of the commands, and what chaintime and
-- the HTTP client of go-eth-consensus do.
pub mod Base
pub mod Array
pub mod GoMap
pub mod DelayHeap
pub mod Duty
pub mod DutyQueue
pub mod Bitlist
pub mod Scheduler
pub mod State
pub mod DutyLogic
pub mod Server
pub mod Slashing
pub mod Command
pub mod Client
pub mod Uuid
pub mod Beacon
pub mod Routines
pub mod Tests
