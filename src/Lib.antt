-- ===== src/Lib.antt =====
-- The RabbitMQ Stream client in C++ (cpp_rabbitmq_client_stream), modelled and verified.
--
-- A client talks to a broker in size-prefixed binary frames. `codec` writes and reads the wire types
-- through `buffer`, and checks strings with `utf8`. The structs under include/stream/commands encode
-- and decode the bodies of commands, `frame` puts a body behind its key, version and correlation id,
-- and `dispatcher` hands the frame that arrives to the request that waits for it. `handshake` brings a
-- connection up in five steps, `socket` moves the bytes, and `client` connects, makes the requests of
-- the public API, runs the threads that read frames and send heartbeats, and closes.
--
-- Where each part is modelled; the paths are below cpp_rabbitmq_client_stream:
--
--   Errors, Result    include/stream/errors.hpp, src/errors.cpp, include/stream/result.hpp
--   Buffer            include/stream/buffer.hpp
--   Utf8              src/utf8.cpp
--   Codec             src/codec.cpp
--   Frame             src/frame.cpp, include/stream/frame.hpp
--   Commands          include/stream/commands/handshake.hpp, include/stream/commands/lifecycle.hpp
--   Dispatcher        src/dispatcher.cpp, include/stream/dispatcher.hpp
--   Config            include/stream/config.hpp
--   Transport         the interface of the socket that Handshake and Client use
--   Socket            src/socket.cpp, include/stream/socket.hpp
--   Handshake         src/handshake.cpp, include/stream/handshake.hpp
--   Client            src/client.cpp, include/stream/client.hpp, include/stream/close_reason.hpp;
--                     Client.Connection is connect, close, the destructor and the threads, as steps
--   Examples          runs at concrete inputs
--
-- Each function and struct keeps its name. An unsigned integer is a natural number whose wrap-around
-- is written out, a signed one an integer in two's complement, a string or a vector of bytes a list
-- of numbers. A writer maps the buffer before it to the buffer after it. A reader maps the cursor to
-- a result and the cursor after it. The proofs about codecs rest on three notions, one rule each for
-- every way to build a decoder: `Carries` (what is written is read back, whatever follows), `Careful`
-- (no read leaves the input, and errors are of one kind) and `Local` (a read that succeeds does not
-- depend on what follows). The UTF-8 loop runs on fuel, one unit for each byte of the input, which is
-- enough since every round takes a byte.
--
-- The dispatcher holds its mutex while it touches the map, so a schedule of threads is a list of
-- operations; a promise is a number, and what happens to it is logged. The handshake and the client
-- are programs over a transport, with `write_all` and `read_frame`: a script of whole frames, or
-- `Socket.tcp` over `send` and `recv`. What POSIX says of these two is a record of named hypotheses
-- (Socket.Stream), one on every stream socket and one on a connection that works. The loops over them
-- run on fuel: a call takes at most one unit for each byte, and one for each time that it is interrupted, which
-- the argument `interrupts` bounds. `Transport.Simulates` compares two transports. The loop of the
-- handshake that answers challenges has no bound in the code; it runs on fuel, and one unit more than
-- there are challenges is enough. A request of the client takes the operations that other threads
-- make on the dispatcher while it waits as an argument. A round of the reader thread is one step, and
-- the loop takes what its reads give as an argument; `Client.Reader` makes the reads too.
--
-- The life of a client is a relation between its states, with one constructor for each operation and
-- for each round of a thread, so that every interleaving of them is a sequence of steps. `connect` is
-- three: up to the Connecting state, from there to the Open state, and the start of the threads, before
-- which other threads see an open client. `close` and the destructor are several, since they wait for
-- the threads. A log keeps the descriptors that were opened and closed.
--
-- Not modelled: the room that decoders reserve for the count of an array, which throws where there is
-- not enough memory; TLS, which connect ignores; system calls, getaddrinfo and strerror, which are
-- parameters; the time that a call takes, so that a read that blocks for ever is not told from one that
-- has not returned yet; log lines; the accessors of TlsSocket, whose connection is a stub; and the
-- container of third_party/rmqstream/expected_like.hpp, which is a sum here.
pub mod Common
pub mod Errors
pub mod Result
pub mod Buffer
pub mod Utf8
pub mod Codec
pub mod Frame
pub mod Commands
pub mod Dispatcher
pub mod Config
pub mod Transport
pub mod Handshake
pub mod Socket
pub mod Client
pub mod Examples
