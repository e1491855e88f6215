-- ===== src/Lib.antt =====
-- The core of the eBUS library: what stands between the bytes of the bus and the telegrams that the
-- application sees, and the parts of the application that share the bus.
--
-- A byte from the bus is an event for `BusHandler::onBusEvent`. It runs the arbitration machine
-- `Request`, which decides who may send, and then the protocol machine `Handler`, which watches the
-- telegrams of others, answers those for this device and sends its own. The handler collects wire
-- bytes in `Sequence`s, which it turns into a `Telegram`; a telegram's part is valid if its header is
-- well formed and its CRC is right. A SYN (0xAA) separates telegrams, so no other byte on the wire
-- may be one: `Sequence::extend` escapes it, `Sequence::reduce` takes the escapes away.
--
-- Above it, the `Scheduler` gives one message at a time to the handler and sends it again with a backoff;
-- the `PollManager` and the `DeviceScanner` say what is to be sent, the latter from what the `DeviceManager`
-- has seen; the `ClientManager` lets one network client at a time send on the bus, and forwards the bytes of
-- the bus to the others. `DataTypes` turns the bytes of a telegram into values.
--
-- Which file models what:
--   Types        include/ebus/types.hpp: the enumerations of the protocol.
--   Symbols, Address   include/ebus/address.hpp: symbols, escaping, addresses.
--   Crc          include/ebus/protocol_math.hpp: the CRC table and one CRC step.
--   Sequence     include/ebus/sequence.hpp: class SequenceImpl; `extend` and `reduce` with their loops in
--                place. Sequence/Spec says what these mean out of place.
--   Telegram     src/ebus/core/telegram.hpp: createMaster, createSlave and the checks;
--                Telegram/Parse is `parse`. Telegram/Frame is frameMaster and frameSlave of src/ebus/utils/utils.cpp.
--   Request      src/ebus/core/request.hpp and request.cpp: the arbitration machine.
--   Handler      src/ebus/core/handler.hpp and handler.cpp: the protocol machine. Handler/Matrix is its
--                transition matrix, Handler/Passive, Reactive and Active are its fifteen states, and
--                Handler/Run is `Handler::run`.
--   BusHandler   src/ebus/core/bus_handler.cpp: one bus event through both machines.
--   Enhanced     src/ebus/app/enhanced_protocol.hpp: the two-byte packing of the client protocol.
--   Heap, StaticVector   std::push_heap and std::pop_heap as an interface, include/ebus/static_vector.hpp.
--   Scheduler    src/ebus/app/scheduler.cpp: Scheduler/Tick is the periodic step, Scheduler/Callbacks what the
--                handler and the arbitration report, Scheduler/Calls the calls as data.
--   PollManager  src/ebus/app/poll_manager.cpp.
--   Device, DeviceManager, DeviceScanner   src/ebus/models/device.cpp, src/ebus/app/device_manager.cpp and
--                device_scanner.cpp; DeviceScanner/Next is `nextCommand`.
--   Ring         src/ebus/utils/circular_buffer.hpp.
--   Client       src/ebus/app/client.cpp: the outbound ring; Client/Inbound is what a client sends, Client/Bridge
--                what it makes of a byte of the bus.
--   ClientManager   src/ebus/app/client_manager.cpp: the session; ClientManager/Io is the bytes of the bus and of
--                the sockets, ClientManager/Calls the calls as data.
--   Config       include/ebus/config.hpp and src/ebus/app/config_validator.cpp: the check of a configuration.
--   Json         src/ebus/utils/json_writer.cpp and json_reader.cpp with their headers: Json/Writer the writer
--                and its buffer, Json/Validate the strict validator, Json/Reader the pull reader, with
--                Json/Reader/Stream its input and Json/Reader/Path its search; Json/Tree the calls for a tree.
--   DataTypes    src/ebus/models/data_types.cpp: the table of types, decode and encode.
--   Base         tests and list lemmas on the native numbers. Tests: runs and examples.
-- An object is a record with the source's fields, a method a function of the old to the new state, named
-- after it in snake case. Where one method is long, its branches are functions of their own.
--
-- What the model takes for granted:
--   - A byte is a number; where a bound matters to a result, it is a hypothesis. Shifts and sums of
--     bytes keep their wrap-around. Indices and lengths are not bounded.
--   - Allocation succeeds, so a byte vector is a list. Reading behind its end gives 0 in the model.
--   - The monitor, the bus and all callbacks are attached. A call on one of them is an event in the
--     machine's log. The reactive callback of the user is the parameter `respond`.
--   - Time stamps of events are left out. Where a time decides, it is an unbounded number, and a reading of
--     the clock an argument.
--   - The heap functions of C++ do what the standard says of a heap, and floating point arithmetic is a
--     parameter. A socket is the list of its answers, and the platform's queue the list of its elements,
--     at most 32; a call that has to wait on a full queue gives none.
--   - The texts of numbers, which std::to_chars gives, are arguments of the JSON writer, and size_t has a limit
--     that is an argument of the path search. The ends of JSON containers match their starts.
--   - Atomic flags are plain fields: a function is the step of one thread, and runs from start to end.
-- The loop of `reduce` runs on fuel, the number of bytes, of which each round reads one. The loop over the due
-- poll items runs on fuel; while the clock stands still, one round more than there are items is enough, since
-- each round makes one item less due. That of the deep scans has 258 rounds, since each round but the last takes
-- one of 256 pending addresses or the one under way. The loop of the JSON validator has the length of the text as
-- its fuel and the search for a key one round more, since each round but the last takes a byte.
--
-- Not modelled: the memory management of SmallByteVector, the monitor and its metrics, and the controller with
-- its reactor, which wire the parts together; the JSON form of a configuration and of what is only reported, the
-- iteration of the JSON reader with callbacks; other text; logging; threads, listening sockets and the platform
-- layer, which are input and output.
pub mod Base
pub mod Types
pub mod Symbols
pub mod Address
pub mod Crc
pub mod Sequence
pub mod Telegram
pub mod Ring
pub mod Heap
pub mod Request
pub mod Handler
pub mod BusHandler
pub mod StaticVector
pub mod Scheduler
pub mod DataTypes
pub mod Enhanced
pub mod Config
pub mod Json
pub mod Device
pub mod DeviceManager
pub mod DeviceScanner
pub mod PollManager
pub mod Client
pub mod ClientManager
pub mod Tests
