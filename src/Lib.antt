-- ===== src/Lib.antt =====
-- A verification library of the communication system for critical autonomous vehicles.
--
-- The program is a stack of C++ classes in src/ and a kernel module in kernel/gps_module. The
-- processes of a vehicle, its components and its gateway, exchange frames over a ring in shared
-- memory; the gateway is also on the network, through a raw socket. On the frames stands the
-- protocol, with a port for each endpoint and the clock synchronisation SPTP between the vehicles
-- and a road-side unit, and on the protocol the communicators, through which a consumer states its
-- interest in a unit of data and its producers answer at the period asked for. A virtual GPS says in
-- which of four quadrants a vehicle is; frames of other quadrants are dropped, and a change of
-- quadrant asks for a synchronisation and empties the producers' tables.
--
-- Which module is about which code:
-- - SharedMemory (Region, Engine, System, Create, Lifecycle): src/network/engine/shm_region.h and
--   shared_memory_engine.cpp. A region is a record with the fields of the C structs; `engine_send`,
--   `write_slot`, `read_slot`, `engine_init` and `engine_close` are functions on it. `Step` is the
--   interleaving of the processes: a block between two semaphore operations is one step, and the
--   semaphores are counters. Attachment, `engine_init`, is a step at any time; `IsOnTime` is said of
--   the runs where none comes after the first frame, which the code does not enforce. Lifecycle has the configuration, attachment and closing of a process.
-- - Ethernet: src/network/ethernet.h. Network.Nic: src/network/nic.h, the pool of buffers, sending
--   and the receive handler; Transfer has the constructor, sending from memory, `unmarshal` and the
--   observers. A buffer is the bytes of its frame. Network.RawSocket: the socket of
--   src/network/engine/raw_socket_engine.cpp and the thread that receives.
-- - Channel.Address, Channel.Protocol: src/channel/protocol.h; `update_shm` and `update_socket` are
--   `update` for a buffer of either NIC, and return what is sent and who is notified;
--   `send_packet` and `receive_packet` are `send` and `receive`; `update_component` is `update` in a
--   component's process. `handle` is the receive handler of a NIC with the protocol as its observer,
--   which is called for the frames of its type only. Session has the constructor and the
--   synchronisation that it starts, with its History; Packing
--   and Carrying say what stands where in a frame, Forwarding what a gateway passes on of it. Events
--   runs a gateway on what its NICs receive and on what it sends, one event after the other.
-- - Channel.Sptp: src/channel/sptp_protocol.h, both roles. A call returns the new state and what it
--   sends, with the clocks that it reads as arguments.
-- - SmartData.Wire and SmartData.Helpers: smart_message.h, smart_helpers.h and unit.h of
--   src/communication/smart_data, with the packed structures as bytes.
-- - SmartData.BindingCache: binding_cache.h, the producers' table of interests and their threads.
--   `lease_step` is its specification, a table of leases.
-- - SmartData.Smart: smart_data.h, a producer or a consumer of one unit, on the cache above. History
--   is the life of a consumer. SmartData.DataTypes: data_types.h, the types of the values.
-- - SmartData.Exchange: interests and responses over the communicators, from end to end: to another
--   vehicle, and to the broker of a road-side unit.
-- - SmartData.Tracker: interest_tracker.h, the broker of a road-side unit.
-- - Communication: src/communication/message and communicator.h; an observer of the channel that is
--   observed by the SmartData of its component. Message.Typed is the memory of a message whose
--   payload has a type. Communication.Journey is the way of a broadcast through the gateways, with
--   the NICs that call the protocol; the answer of each engine to a send is an argument.
-- - Observers: the queue, mutex and semaphore of src/core/observers/concurrent_observer.h and
--   src/core/posix_semaphore.h, as an interleaving of the steps of `update` and `updated`. The lists
--   of observers, with `attach`, `detach`, `notify` and `has_observer`, are in Channel.Protocol.
--   Observers.Conditional: conditional_data_observer.h, where notifications run while others attach
--   and detach.
-- - PeriodicThread: src/core/periodic_thread.h, the deadlines and the loop that sleeps in slices.
-- - Application (Vehicle, Processes): src/application, a vehicle's components and gateway, and its
--   processes: what they fork, await, create and destroy, and the codes that they end with.
--   Components: the sensors and actuators, with doubles as a parameter.
-- - Gps: kernel/gps_module/gps.c, src/network/gps.cpp and the test that drops a frame in
--   src/network/engine/raw_socket_engine.cpp.
-- - Clock: `monotonic_stamp` of src/core/clock.h, as an interleaving of its atomic operations.
-- - Priority: src/core/rt_priority.cpp, the priorities of the threads.
-- - Prelude: what the modules share.
--
-- Numbers: unsigned integers are natural numbers with their wrap written out; signed times are
-- integers that are taken not to overflow (nanoseconds since 1970 do not, until 2262). The moving
-- average of SPTP is in doubles in the code and exact below 2^49 nanoseconds. Only the loop of
-- PeriodicThread runs on fuel, which bounds its slices of 50 ms: as many as the time to the deadline
-- has are enough if the clock does not go back. The other loops are structural. The operating system
-- is not code of the repository: clocks, `jiffies`, random numbers and the outcome of system calls
-- are arguments.
--
-- Not modelled: the set-up of signals and threads, which is system calls only, and the scenarios of
-- src/tests.
pub mod Prelude
pub mod SharedMemory
pub mod Ethernet
pub mod Channel
pub mod SmartData
pub mod Gps
pub mod Clock
pub mod Network
pub mod Observers
pub mod Communication
pub mod Application
pub mod PeriodicThread
pub mod Priority
