-- ===== src/Lib.antt =====
-- Verification library of the CAN driver (package can_driver): the lifecycle of the driver, the
-- state its parts share, and the frames on the bus, as models of the C++ code with theorems.
--
-- How the parts interact. The services and the control loop call the operational coordinator,
-- which keeps the mode of the system and calls the driver operations. Those ask the readiness
-- evaluator whether each axis may be enabled or run; the evaluator reads the feedback, command,
-- intent and device health that the protocol drivers keep in the shared driver state. The
-- protocol drivers turn commands into frames and responses into feedback. The frames go to the
-- bus through the queues of the device runtime, and the refresh scheduler chooses the queries
-- that keep the feedback fresh. The command gate holds commands back until a fresh one is given.
--
-- Which file models which part:
--   Coordinator: src/operational_coordinator.cpp and
--     include/can_driver/operational_coordinator.hpp. `Sys` is the atomic mode with the world
--     behind the driver operations, `request_init` stands for RequestInit and so on,
--     `do_transition` for DoTransition. Session turns the calls into data; Transitions, Traces
--     and Safety prove what a call and a session of calls do; Races interleaves a feedback report
--     with a request.
--   Gateway: src/lifecycle_service_gateway.cpp, the handlers of the services over the
--     coordinator.
--   Can: include/can_driver/CanTransport.h, CanType.h, MotorID.h, and the enumerations of
--     CanTxDispatcher.h and CanProtocol.h. A frame's data is a list of eight bytes.
--   MtRmd: include/can_driver/MtRmdProtocol.h, one function per function of the header.
--   SharedState: include/can_driver/SharedDriverState.h. The four maps are association lists, a
--     text key is the list of its characters' codes, and each call is one step, as the mutex
--     makes it.
--   Readiness: include/can_driver/AxisReadinessEvaluator.h, and evaluateAxisReadiness of
--     src/lifecycle_driver_ops.cpp with its recover trackers.
--   DeviceRuntime: src/DeviceRuntime.cpp with its header and CanTxDispatcher.h. `Runtime` holds
--     the queues, flags and counters and where the worker stands; Worker splits workerLoop into
--     steps at the points where the lock is free and makes every call an event. Queues and
--     Submission prove the order and what a call of submit does, Invariant, Moves and Reachable
--     the invariant, Accounting the counters, Drain that the worker ends after a stop, Health
--     what a lost link does to the readiness of the axes.
--   Lifecycle: src/lifecycle_driver_ops.cpp and src/CanDriverRuntime.cpp. `Host` is the driver's
--     own state with the world, `Env` the interfaces and the clock that it is given. Checks has what
--     each loop asks of a target, Waiting the loops that wait, Operations the requests on a device
--     or on all targets, Runtime the init request with its optional devices and the operations that
--     the coordinator gets. Deadlines is about the waits, Confirmed, Healthy, Enabled and Recovered
--     about what a success has confirmed, Rollback about failures, Released and Optional about the
--     runtime.
--   Mt: src/MtCan.cpp with its header. Reads tracks the queries, Commands and Response are the
--     methods of the protocol and the receive handler. Tracking and Histories follow the reads
--     through any sequence of calls, Retries, Answers and Wire are about what comes of them.
--   Eyou: src/EyouCan.cpp with its header. Sending has the frames and the read tracking,
--     Commands and Response are the methods of the protocol and the receive handler, Waits the
--     calls that wait for an answer. Untouched is about what sending leaves as it is, Ready and
--     Preloads about the velocity register, Acknowledged about the waits.
--   Refresh: include/can_driver/RefreshScheduler.h. Scan is about the selection loop, Fairness
--     about plans over several cycles.
--   CommandGate: src/command_gate.cpp with its header. Latch follows the fresh-command latch over
--     a series of polls, Devices the device events.
--   Udp: send, the received packets and the handlers of src/UdpCanTransport.cpp.
--   SocketCan: src/SocketCanController.cpp with its header. Lifetime is about the socket and its
--     thread over any sequence of calls, Frames about the kernel's frame, Statistics about the
--     counters, Handlers about the receive handlers.
--   MotorAction: src/motor_action_executor.cpp with its header; Batches is about its reports.
--   Prelude: the names shared by all of these, Boolean tests on the native numbers, lists, maps
--     and machine integers.
--
-- Numbers. Unsigned integers are native numbers below their bound, with wrap-around written out;
-- signed ones are `Prelude.Int.ℤ` with the conversions of two's complement. Times are nanoseconds
-- of the steady clock, an argument of the calls that read it.
--
-- Fuel. `decimal`, the digits of a 16-bit number, needs five. `scan` of Refresh counts the remaining
-- offsets down from six. The waits of Lifecycle take `rounds_for`, the rounds of 50 ms that fit into
-- the time of the wait and one more; Lifecycle.Deadlines is about why that is enough.
--
-- Not modelled: logging, ROS wiring, sockets and threads as such, floating-point conversions, and
-- the vendor SDK.
pub mod Prelude
pub mod Coordinator
pub mod Can
pub mod MtRmd
pub mod SharedState
pub mod Readiness
pub mod DeviceRuntime
pub mod Refresh
pub mod CommandGate
pub mod MotorAction
pub mod Lifecycle
pub mod Mt
pub mod Eyou
pub mod SocketCan
pub mod Udp
pub mod Gateway
