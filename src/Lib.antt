-- ===== src/Lib.antt =====
-- A model of the core of Dragonfly, a peer-to-peer file distribution system, in Go.
--
-- The scheduler keeps, for each file (task), a tree of peers that hand pieces of it to one another.
-- Peers report pieces and results as events; an event changes the tree, asks the basic scheduler for
-- parents or children, which asks the evaluator for scores, and sends the peers concerned a packet.
--
-- Prelude           numbers, lists, association lists, signed and 32-bit integers.
-- Container         pkg/container/set/set.go, pkg/container/list/sorted_list.go and
--                   sorted_unique_list.go: Set, SortedList, UniqueList. An item is the address of a
--                   record; its SortedValue is a function that the caller passes.
-- Supervisor        scheduler/supervisor. State has the records of host.go, task.go and peer.go, and
--                   `World`, a store for each kind of record, with the managers' maps and the clock.
--                   Hosts, Tasks, Peers and Channels have the methods, Tree the walks over parents
--                   and children, Managers the peer and task managers with their RunGC. Budget is
--                   about Task.AddBackToSourcePeer.
-- Cache             pkg/cache/cache.go: the map and its expirations. Each method takes the time at which
--                   it reads the clock, and the callback is a record of its calls. Live, Sweep and
--                   Loading are about its methods, Reach about all orders of their calls.
-- Util              pkg/util/mathutils/math_utils.go and, as RangeUtils, pkg/util/rangeutils/range.go.
--                   KeyLocker is pkg/synclock: the pool of mutexes, and its goroutines as the relation
--                   Reach. Tally and Counting are about the counts, Invariant, Locking and Unlocking
--                   about the pool, Exclusion about the goroutines.
-- Cdn               cdn/supervisor. Records is the text of piece records (cdn/storage/storage.go) and the
--                   file of them (cdn/storage/disk/disk.go), Tasks is task/task.go, task/manager.go and
--                   task/manager_util.go with the piece size of internal/util/util.go, Disk the other
--                   files of disk.go and cdn/metadata_manager.go, Detector cdn/cache_detector.go, in which
--                   errors.Wrap of github.com/pkg/errors is a parameter.
-- Storage           client/daemon/storage: metadata.go. Files are lists of bytes, Local is
--                   local_storage.go with Access (the reads and digests) and Disposal (storing and
--                   reclaiming), Manager is storage_manager.go with Index and Gc. Local.Pieces, Digest
--                   and Drained are about a store; Manager.Removal, Idle and Completed about all.
-- Core              scheduler/core. Floats is float64 as a parameter, with the two functions of the
--                   statistics package; Evaluator is evaluator/evaluator_base.go, Ranking and Basic
--                   are scheduler/basic/basic_scheduler.go, Events is events.go, Service is service.go with the
--                   queues of worker.go. What the events ask of a scheduler is the record
--                   Keeping.SchedulerLaws, which Events.Basic fills for the basic scheduler; Turns,
--                   Runs and Trace are about sequences of events, Service.Delivery about those of calls
--                   of the service and turns of its workers.
-- Examples          a small cluster, tests, and the theorems at concrete inputs.
--
-- How the code is read. A method keeps its name in snake case. A call that changes records through
-- pointers takes the world and returns it, in the order of the writes of the source. Ids, names and
-- addresses of hosts are numbers, since they are only compared. Times are nanoseconds, read off the
-- world's clock. An int32 counter is an integer; sums that can leave 32 bits are wrapped where the
-- source adds in int32 or uint32 (the host load, the free load, the sorted value of a peer).
-- A sync.Map is an association list, whose order is the order of its range. Locks are left out but
-- in KeyLocker: each call runs alone. Logs, metrics and traces are left out.
--
-- `Option` in the result of a function of Core or Tree stands for a call that does not return:
-- `none` is a panic, or a walk over the parents that has not ended within its fuel. The fuel is an
-- argument of the walks (and so of the basic scheduler); a chain of n parents needs n + 1 units.
--
-- Which branch the select of Channel.Send takes is the runtime's choice; the channel record holds
-- it. The loops of Channel, the start of the service, the writer and the cleaner of the CDN, the
-- manager and, but for its storage, the client daemon are not modelled: they are left for later, or
-- are glue over gRPC, HTTP and databases. In the storage, a file is written without an error of the
-- disk, and the reload of the stores from the disk is left out.
pub mod Prelude
pub mod Container
pub mod Cache
pub mod Supervisor
pub mod Util
pub mod Core
pub mod Storage
pub mod Cdn
pub mod Examples
