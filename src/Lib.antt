-- ===== src/Lib.antt =====
-- Foxtrot, a server for the devices of benchtop experiments, and programs that are its clients.
--
-- A server owns devices and flags. Clients call it over gRPC; a session gives a client devices and
-- flags for itself, and every request is checked against the sessions. Exceptions of a handler travel
-- back as error codes. Client programs keep a cryostat cold: one fills it with liquid nitrogen, one
-- follows its state and that of its vacuum pump. Drivers of devices speak the devices' protocols.
--
-- Base        shared: booleans, lists, results, dictionaries, decimal text as C++ prints and reads it,
--             text as lists of bytes with hexadecimal numbers (Texts), numbers that are printed and read
--             back (Numerals), and actions, which return or throw and leave a state.
-- Session     the session manager: server/src/SessionManager.cpp and
--             server/include/foxtrot/server/SessionManager.hh, the check of requests in
--             server/include/foxtrot/server/SessionHandlerMixin.hh. The four maps are dictionaries;
--             each public function is a function of the same name from a state to a result. The
--             mutexes and the update thread are not modelled. `start_session` is two steps, the
--             checks under shared locks and the commit under the exclusive one, so that what happens
--             between them can be said. Random secrets and the clock are arguments.
-- Rpc         exceptions to error codes in server/include/foxtrot/server/ServerUtil.h, and back in
--             client/include/foxtrot/client/client.h.
-- Handles     core/src/HandleManager.cpp: objects by number; the generator of numbers is an argument.
-- Flags       server/src/FlagMap.cpp, the handlers of server/src/ServerFlagsImpl.cpp, and the calls for
--             flags in client/src/client.cpp. It uses Rpc for the errors.
-- Autofill    lsst/autofilld/autofill_fill_logic.cpp. Its state includes the server's flags, which it
--             reads and writes through Flags. A tick is one step; what a fill's thread does at its
--             begin and its end are steps of their own. What the notification service and the relay
--             throw is an argument. The assignment of a new fill waits for an old one that is not
--             done; that wait is not modelled. The second `get` of a future is undefined by the
--             standard; it throws `future_error` here, as the standard encourages and libstdc++ does.
-- Fsm         the state machines of lsst/fsmd: src/cryo_system_fsm.cpp and src/vacuum_system_fsm.cpp.
--             The vendored tinyfsm is an argument, with what `transit` does as its one law for the
--             cryostat. Static members of a state are members of the machine.
-- Harness     core/src/DeviceHarness.cpp: the devices by number and their locks. The locks of a
--             `ClearDevices` are released when it returns or throws.
-- Devices     Rly8: devices/RLY-8/RLY_8.cpp. Pfeiffer: devices/Pfeiffer/Pfeiffer.cpp and Pfeiffer.h.
--             A string is the list of its bytes; the answer of a device is a function of the request.
--             Whether `char` is signed is an argument of Pfeiffer, and Rly8 says where it matters.
--             Apt: devices/Thorlabs_APT/APT.cpp, APT.h and APT_defs.hh. The port is the bytes that come
--             in and those that were written; what a flush leaves of the bytes to come is an argument.
--             A read of more bytes than come in throws a timeout. Apt/Structs has the packed structs,
--             Apt/Motor the statuses and what a wait makes of a message, Apt/Motor/Params the calls for
--             parameters and Apt/Motor/Moves the moves; Apt/M30x is a stage that uses them,
--             devices/Thorlabs_APT/M30X.cpp. TCube: devices/ssc_chiller/ssc_tcube_edge.cpp; what a
--             sleeping thread does and what the chiller answers are arguments.
--             Archon: devices/archon/archon.cpp. Each public function is a function of the same name that
--             returns or throws and leaves a state; the connection and the controller are one argument,
--             from what is written to the line that is read. Archon/Settings has the settings,
--             Archon/Params the parameters, scripts, states and taps, Archon/Frame the status, and
--             Archon/Modules and its children the modules. That the controller stores the lines that it is
--             sent is a hypothesis (Archon/Store). Archon/Buffers fetches frames over
--             protocols/src/simpleTCP.cpp, whose socket is three more arguments.
--
-- Machine integers are natural numbers with their wrap-around written out: session numbers are 16
-- bits, checksums of Rly8 are summed in 32 bits. Doubles are an arbitrary type with a comparison; times
-- are numbers of seconds. The digits of a number are produced on fuel, one more than the number, beyond
-- which fuel makes no difference (Base/Decimal); hexadecimal digits likewise (Base/Texts). The wait for
-- the end of a move takes as much fuel as bytes are still to come, and one more; each round takes a
-- header of six bytes, so that it is enough (Devices/Apt/Motor/Blocking). The wait for the chiller's turn
-- takes one round, which is enough if no thread wakes too early (Devices/TCube/Spacing). The wait for a
-- block of a frame has the number of rounds that the code gives it. All other loops are recursion on lists.
--
-- Not modelled: gRPC, protocol buffers, RTTR, SASL, the ports of the operating system, and the code that
-- only passes values to them; the other drivers are parts of their own.
pub mod Autofill
pub mod Base
pub mod Devices
pub mod Flags
pub mod Fsm
pub mod Handles
pub mod Harness
pub mod Rpc
pub mod Session
