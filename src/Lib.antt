-- ===== src/Lib.antt =====
-- robocrisp is a C++ library with which a robot and the computer that controls it describe the
-- robot's modules to each other, send commands and report sensor values. This development models
-- the parts of it that encode, decode, look up and check; the paths below are from the root of the
-- repository.
--
-- Base.antt gathers the names of the standard library and of Base/: Tests (Boolean tests on
-- numbers), Lists (lists with lengths in the native numbers) and Memory (blocks of bytes, memcpy,
-- slices, size_t subtraction). A byte is a number below 256, a block of memory the list of its
-- bytes, and a machine word keeps its wrap-around as a remainder.
--
-- Comms/Buffer.antt models the memory buffers of include/crisp/comms/Buffer.hh and
-- src/comms/Buffer.cc with the results of include/crisp/comms/common.hh. Comms/Encoder.antt has the
-- ways in which the encode methods are put together: `>>` looks at a result, `⨾` drops it.
--
-- Comms/DataDeclaration.antt models the generic declaration of
-- include/crisp/comms/DataDeclarationBase.hh and src/comms/DataDeclaration.cc, with its packed bit-
-- fields. Comms/DataDeclaration/Typed.antt models the declarations of the same file for integers
-- and floating-point numbers, whose values are their bytes; NaN is a parameter. Comms/Named.antt
-- models the macros of include/crisp/comms/decl-defn-macros.hh for any fields before the name's
-- length; Comms/ModuleInput.antt and Comms/Sensor.antt fill that interface for
-- src/comms/ModuleInput.cc and src/comms/Sensor.cc. The struct layouts are those of GCC and Clang
-- on little-endian machines.
--
-- Comms/Module.antt and Comms/Configuration.antt model src/comms/Module.cc and
-- src/comms/Configuration.cc. A configuration holds modules, a module holds inputs and sensors, and
-- each encodes its parts in order into one buffer. What `new char[n]` holds before it is written is
-- the parameter `fresh` of the decoders. The arrays are the lists of their elements, and a loop
-- over the first n of them is a recursion on n.
--
-- Comms/Message.antt models src/comms/Message.cc and include/crisp/comms/Message.hh: the table of
-- message types, the header, the body, the checksum, and the messages that carry a configuration.
--
-- Comms/Handshake.antt models src/comms/Handshake.cc with the answer that
-- include/crisp/comms/bits/MessageDispatcher.tcc gives to a handshake, and Comms/Node.antt models
-- include/crisp/comms/bits/BasicNode.tcc with the default handlers: launching, halting, the
-- handshake timer and the SYNC action, as events in any order. Whether halt may run on the current
-- thread is a part of the event. Comms/MessageDispatcher.antt models the dispatcher itself: the
-- handlers that are connected for each type of message, those of them that a message calls, and
-- what these calls do to the node. Comms/Receive.antt models the receive loop of the same file over
-- the bytes that the socket will give; a loop of n rounds is a recursion on n, and n messages need
-- n rounds. Comms/Resync.antt models the same loop with the resynchronisation that follows a wrong
-- checksum; how many bytes behind the delimiter are lost with its buffer is an input of each round,
-- and the loop has a round for each such number. For which messages the dispatcher throws, which
-- leaves a loop, is a parameter of the loops; Comms/MessageDispatcher.antt says it of a dispatcher.
-- Comms/Sending.antt models the send loop, with the outcome of every write as an input.
--
-- Comms/NodeServer.antt models include/crisp/comms/bits/NodeServer.tcc: the loop that accepts
-- connections, with what happens between its tests.
--
-- Comms/DataValue.antt models src/comms/DataValue.cc, and Comms/ModuleControl.antt
-- src/comms/ModuleControl.cc: the values that are sent to the inputs of a module, one for each bit
-- of a field. The value behind a pointer that `value_for` returns is said by its place in the
-- array. `std::sort` is the parameter `sort`, of which is required that it gives the same elements
-- in ascending order (`Sorts` of Base/Sorting.antt); `value_for` calls itself, and two calls are
-- enough. A node's dispatcher decodes such controls with its configuration, and
-- Comms/MessageDispatcher/Arrival.antt follows one to the handlers.
--
-- Util/SharedQueue.antt models include/crisp/util/SharedQueue.hh. What a thread does under the
-- mutex is one step; Util/SharedQueue/Steps.antt has the steps of any number of threads, with
-- waking without a notification among them, and the systems that they reach. The count of waiters
-- is a number without a bound, and it begins with whatever the memory held.
--
-- Util/WorkerObject.antt models src/util/WorkerObject.cc: a pool of threads, which are numbers that
-- are given out in order. Util/Buffer.antt models src/util/Buffer.cc over a memory of blocks, where
-- a block that is freed twice or used after it was freed has no result; Comms/Buffer.antt needs the
-- bytes only.
--
-- Util/Signal.antt models include/crisp/util/Signal.hh and include/crisp/util/bits/Signal.tcc: an
-- emission of a signal, with what other threads and the handlers do to the signal between two of
-- its calls.
--
-- Input/Axis.antt models src/input/Axis.cc: what an axis does with the raw values that are posted
-- to it. Doubles are a parameter with the operations that the code uses; Base/Int.antt has the
-- whole numbers. Input/EvDevController.antt models src/input/EvDevController.cc with
-- Input/Button.antt: what libevdev says of a device is a parameter, and the events that are read
-- are a list. Input/MultiplexController.antt models src/input/MultiplexController.cc, which makes
-- one controller of several.
--
-- Util/Scheduler.antt models src/util/Scheduler.cc, Util/ScheduledAction.antt
-- src/util/ScheduledAction.cc, and Util/PeriodicScheduleSlot.antt src/util/PeriodicScheduleSlot.cc
-- and src/util/PeriodicAction.cc as steps, over a timer of Boost.Asio that is a parameter;
-- Util/Timer.antt says what is required of it, and Util/Timer/Counted.antt has one that fills that
-- interface.
--
-- Util/SArray.antt models the growing array of include/crisp/util/SArray.hh; the other modules have
-- the list of its elements.
--
-- Util/Checksum.antt models the CRC-32 of src/util/checksum.cc; Base/Xor.antt has the laws of the
-- exclusive or that its proofs use, and Util/Checksum/Bitwise.antt the definition a bit at a time.
--
-- Not modelled are reference counts, the structure declarations that nothing uses, sockets, threads
-- and event devices, the programs under tests, the tools, and the copies and moves of names between
-- objects, which are values here.
pub mod Base
pub mod Comms
pub mod Input
pub mod Util
