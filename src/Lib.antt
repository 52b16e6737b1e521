-- ===== src/Lib.antt =====
-- bsomeip, a SOME/IP stack: messages, end-to-end protection, access control, routing, TCP framing.
--
-- The program reads and writes messages in place (include/bsomeip/wire), protects their payloads
-- with checksums and counters (include/bsomeip/e2e), filters them by a policy
-- (include/bsomeip/security), cuts them out of a TCP stream (include/bsomeip/io/framer.hpp) and takes
-- them to the handlers of services (include/bsomeip/route). Service discovery (include/bsomeip/sd)
-- announces services; the application (include/bsomeip/api) stands on top.
--
-- Platform/ByteOrder: include/bsomeip/platform/byte_order.hpp (bswap64, bswap32).
-- Wire/Bytes, Wire/HeaderView, Wire/Header: include/bsomeip/wire/header.hpp. A buffer is a list of
--   bytes, a pointer into it an offset; each getter and setter of header_view is a function of its
--   name. Wire/MessageType and Wire/Wildcards: message_type.hpp and constants.hpp beside it.
-- Wire/Tp: include/bsomeip/wire/tp.hpp. The loop over the payload runs on as much fuel as the payload
--   has bytes, enough when a segment takes one at least. The code loops for ever when the largest
--   segment payload is 0 and there is a payload; the model then stops at the end of the fuel.
-- Wire/Primitive, Wire/Codec: include/bsomeip/wire/codec.hpp. The reflection over the members of a
--   struct is a description of the struct, and its values are tuples of that shape. An access behind
--   the buffer is a result of its own.
-- E2e/Crc8, E2e/Crc32, E2e/Crc64, E2e/Slices: include/bsomeip/e2e/crc.hpp, the tables as computed by
--   the code, the byte loops and slicing by eight; their child modules hold the shift register that
--   defines each checksum and the proofs.
-- E2e/Profile01, 02, 04 and 07, E2e/Feed, E2e/Result: include/bsomeip/e2e/profile.hpp. `protect`
--   gives the new payload, `check` the result and the new last counter.
-- E2e/Protector: include/bsomeip/e2e/protector.hpp over a record of operations and a record of laws,
--   which E2e/Protector/Profiles fills for the four profiles.
-- Security/Policy, Security/Enforcer: include/bsomeip/security.
-- Route/Registry, Route/Dispatcher, Route/Manager: include/bsomeip/route. Maps are association lists
--   with one entry for a key (Common/Maps). Handlers are functions on a state of the program around.
-- Sd/Entry: include/bsomeip/sd/entry.hpp. Sd/Discovery: include/bsomeip/sd/discovery.hpp, with times as
--   counts of clock ticks and the options of an offer of any type. Sd/Option and Sd/Message:
--   include/bsomeip/sd/option.hpp and message.hpp. The loop over the options runs on one fuel more
--   than their bytes, of which each option takes three at least; it is shown to end by itself.
-- Io/BufferPool: include/bsomeip/io/buffer_pool.hpp; a buffer is its offset in the storage. Sizes and
--   offsets have the 64 bits of `std::size_t`.
-- Io/Framer: include/bsomeip/io/framer.hpp. Its rescan loop runs on as much fuel as the buffer has
--   bytes; each round erases one at least, and the loop is shown to end by itself. `receive` is the loop
--   of a caller as the comment of the class documents it, and `drain` runs on one fuel more than the
--   buffer has bytes. Route/Manager/Delivery has the way on, from the framer to a handler.
-- Api/Message, Api/Application: include/bsomeip/api/application.hpp. A handler is a name, and an
--   operation gives the list of the handlers that it calls. Api/Rpc, Api/Skeleton and Api/Proxy:
--   include/bsomeip/api/skeleton.hpp and proxy.hpp. A handler of a skeleton routes its response
--   inside the call that routes the request; the depth of such calls is the fuel of Api/Rpc, of which
--   a call needs two units. `sizeof` is a parameter, no less than the size on the wire.
-- Comm: include/bsomeip/comm (attribute.hpp, broadcast.hpp, rpc.hpp). An attribute's value has a place
--   in the state of the implementation; its setter sends the event inside its handler (Api/Rpc).
-- Compat/Message, Compat/Application: include/bsomeip/compat/vsomeip.hpp. A shared pointer to a payload
--   or a message is an option of it; an operation gives what the handlers are told.
-- Common holds what the modules share, Tests the theorems at concrete inputs.
--
-- A w-bit number is a natural number with its wrap-around written out. A read past the end of a
-- buffer gives 0 and a write there changes nothing; the theorems have the sizes that keep accesses
-- inside as conditions where it matters. Little-endian hosts are assumed where the code copies
-- words.
--
-- Not modelled: the plumbing of senders and receivers, io_uring and sockets, inline storage of
-- handlers, locks (each operation is one step), configuration records, and the benchmarks.
pub mod Common
pub mod Platform
pub mod Wire
pub mod E2e
pub mod Security
pub mod Route
pub mod Io
pub mod Sd
pub mod Api
pub mod Comm
pub mod Compat
pub mod Tests
