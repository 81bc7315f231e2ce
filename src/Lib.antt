-- ===== src/Lib.antt =====
-- The scalable TCP server: the packet format and the locales of common/, and of src/ the connection
-- (session, reader and writer), the server that accepts connections, the authentication that packets
-- are routed to, the configuration, the logger, and the application that builds the parts and takes
-- the signals.
--
-- The parts, and the files of this library that model them:
--
-- * Packet.antt is common/packet.hpp and the converters of common/packet.cpp, Packet/Enums the
--   enumerations of common/packet_enums.hpp and common/sub_header_type.hpp. Packet/Parse is the
--   constructor `Packet::Packet` with `parseSubHeaders`, Packet/Create is `Packet::create`,
--   Packet/Lookup the three `sub_header_get_...` lookups (`sub_eader_get_string` among them),
--   Packet/Accessors the pointers that `headers` and `payload` give.
--   Packet/Parse/Tiles and Packet/Parse/Shape describe independently what a packet is; Packet/Encode
--   and Packet/RoundTrip are what a sender writes, and Packet/NetworkOrder is about one that writes sizes
--   in network order. The host's byte order is an argument throughout,
--   with `ntohs` and its like in Word.antt, since the source converts some fields and one not.
-- * Connection.antt is the state of src/session/session.hpp with its reader and writer
--   (src/network/reader.hpp, src/network/writer.hpp) and the operations that asio has pending for them.
--   Connection/Lifecycle is src/session/session.cpp, Connection/Reader is src/network/reader.cpp,
--   Connection/Writer is src/network/writer.cpp. Connection/Events is what asio does: an event
--   completes a pending operation, in any order, and runs its handler; `Reach` are the states that
--   are reached so. A session is destroyed when neither the server, nor a pending wait on the idle
--   timer, nor a login holds it; a handler that then uses the socket ends in `fault`. Connection/Stream
--   gives a session the bytes that a client sends: `async_read` completes once all that it reads has
--   come, as it is documented. Connection/Stream/Judged says of the bytes alone what they come to;
--   Frame, Rounds, Ends and Verdict beside it lead there, and Created is about a client of the same program.
--   In Connection/Events/Elapse events have times: a wait on a timer ends well only once the timer has
--   expired, or if it had expired before the timer was set anew. Connection/Events/Leak is what is left of a connection then. Connection/Peer has the getters
--   of the peer's address, and the login that asks for it.
-- * Server.antt is the accept handler, the count of connections and the set of sessions of
--   src/server/server.cpp. Server/Startup is its constructor with `start_accept` and `start_workers`.
--   Server/Threads cuts the accept handler before the making of the session and before its insertion,
--   where the handlers of other threads come in between. Server/Threads/Chain adds the accept that is pending, which `do_accept`
--   makes and the handler makes again.
--   Server/Whole is the server with all of its sessions, each a `Session` of Connection.antt on a strand
--   of its own, and with the callback by which they leave it; the accept handler is one piece there.
--   Server/Settings is the opening of a session with the timeouts that its parts read from the
--   configuration; elsewhere they are arguments.
-- * Auth.antt is common/auth, with the types of a response in Auth/Response; Auth/Handler is
--   src/router/router.cpp with src/components/auth/auth_handler.cpp, Auth/Service is
--   src/components/auth/auth_service.cpp with src/components/auth/auth_repository.cpp. A coroutine is a
--   function on the list of the statements that the database has executed; one that is not awaited does
--   nothing.
-- * Validation.antt is common/utils/validation.cpp; Validation/Pattern matches the parts of its patterns.
-- * Files.antt is how src/config/config.cpp and common/locales/language_provider.cpp read a file.
-- * Config.antt is src/config/config.cpp: loading and reloading, a key is looked up in a section or at
--   the root, and the getters test the kind of what is found.
-- * Logger.antt is src/logger/logger.cpp; Logger/FilePath is what it uses of std::filesystem::path, on
--   POSIX. `log` takes the files of the disk as a function of their names.
-- * Locales.antt is common/locales/language_provider.cpp with language.hpp, Locales/ErrorCodes is
--   common/locales/error_codes.hpp.
-- * Application.antt is src/application/application.cpp: the constructor with `makeParams`, `run`, `stop`, and
--   the handler that waits for signals, over a list of the signals that come. Application/Main is
--   src/main.cpp.
-- * Base.antt has the shared helpers: a call ends in `done`, in an exception (`throws`), in undefined
--   behaviour (`fault`), or with its fuel used up (`stuck`). Base/Texts compares and splits texts, which
--   are lists of bytes, and Base/Decimal prints numbers.
-- * Samples.antt is a small JSON with the shipped config.json in it.
--
-- How they meet: the reader cuts the stream into packets and hands each to `Session::on_packet`, which
-- makes a `Packet` of it and routes it; a login that is spawned keeps the session alive. `stop` closes
-- the socket and tells the server, which erases the session. The application loads the configuration
-- twice, makes the logger and the server from what the second load found, and stops the server and
-- the io_context on SIGINT, SIGTERM and SIGQUIT; SIGHUP loads the configuration again.
--
-- Bounds: numbers are natural numbers with the wrap of the source's types written out (`u16`, `u32`,
-- and `sub64` for the differences that are compared as size_t). The loop over the sub headers runs on
-- as many rounds as the header area has bytes; every round takes at least three, so `stuck` does not
-- occur. Reading a stream runs on a round for each byte and one more: a length and its body, two
-- rounds, take at least four bytes. Reading a file runs on as many rounds as the file has bytes, and
-- every round but the last takes a block. All else is recursion on lists.
--
-- Parameters: Boost.JSON, the bytes of a file and whether reading it fails, the clock, which
-- directories and threads can be made and which files opened, the calls of an acceptor, what a socket says of its
-- peer, the archive of Boost.Serialization, the database behind the pool, and whether a `shared_ptr`
-- owns an object while its constructor runs. It never does in C++, where therefore `shared_from_this`
-- throws; the theorems on what a connection does are about constructors that are let through, that
-- is, about the program with that call moved behind the construction.
--
-- Not modelled: the log lines that the server and the application write, the pool that runs, an
-- exception that leaves a handler on a worker thread (`start_workers` joins the threads once
-- `io_context::run` has returned in each), a failure of `acceptor.close()` in `Server::stop`, and
-- the pools and services, which are empty. `cancel()` of the idle timer in `Session::stop` changes
-- nothing of the state: its wait may end with `operation_aborted` at any time. `log` reads the
-- clock twice, for the file and for the line, and takes one time for both. An exception that `main`
-- prints stands for its text. Of the peer's address, the accept handler's model has only that asking
-- for it may throw. The handlers of one connection are on one strand, and the server's accept
-- handler is one chain, so threads meet only at the server's state.
pub mod Base
pub mod Word
pub mod Files
pub mod Packet
pub mod Auth
pub mod Validation
pub mod Connection
pub mod Server
pub mod Config
pub mod Logger
pub mod Locales
mod Samples
pub mod Application
