-- ===== src/Lib.antt =====
-- nghttp2-corosio is a C++ library of HTTP/2 servers and clients: nghttp2 parses and produces frames,
-- and coroutines of capy and corosio do the rest. This development models the library's own logic and
-- what it relies on of the libraries below it.
--
-- The parts, and the files that model them:
--   * Stream (src/stream_impl.hpp, src/stream.cpp) joins nghttp2's callbacks to the coroutines that
--     read and write one HTTP/2 stream. Stream.antt has the state and the small methods, Stream/Read
--     the operations read_some() and on_data(), Stream/Write write_impl() and producer_callback(),
--     Stream/Status status(). A coroutine is cut at its waits: one function runs to the wait, another
--     from it. Stream/Read/Order, Stream/Write/Progress and Stream/Status/Waits have the step
--     relations in which a reader, a writer or callers of status() are interleaved with nghttp2;
--     Stream/Transfer joins the first two, and
--     Stream/Write/Whole has write_eof(buffers) as a series of writes.
--   * Session::Impl (src/session_impl.hpp, src/session.cpp) owns the nghttp2 session and the table of
--     streams. Session.antt has the state and the table, Session/Callbacks the callbacks that nghttp2
--     makes, Session/Submit submit_response() and submit_request(), Session/Inputs all that can happen
--     to a running session as one step function, Session/Handler handle_request(),
--     Session/Response get_response(), Session/Setup the calls of nghttp2 at the start and the end of
--     run(), Session/Logs the callbacks that only log. Session/Signals and Session/Window have what a
--     running session asks of nghttp2 (work for the send loop, flow-control credit), Session/Delivery
--     the bodies that its streams receive, Session/Reading what the readers of one of them are handed,
--     Session/Writing the bodies that they send, Session/Answer the status of their responses, and
--     Session/Transfer a body from one session to another. Session/Isolation has the abstract view of
--     a session: each Stream object on its own, with the inputs that concern it, and no table. A
--     shared_ptr is an index into a heap that holds every Stream that was made, so that a Stream
--     outlives its entry in the table.
--   * send_loop() and recv_loop() (src/session.cpp) are SendLoop and RecvLoop. They take what nghttp2
--     and the connection answer in each round as a list of rounds.
--   * Request, Response, ClientRequest (include/nghttp2-corosio/session.hpp) are Session/Objects,
--     where they act on a session, and Message, what they add to it; Decimal has
--     std::from_chars and std::to_string as the two ends of a content-length header use them.
--   * The echo handler (echo_handler.cpp) is Echo, and Echo/Performance its calls on a stream.
--   * The coroutines of test/request_handlers.cpp that read or count a body are Handlers.
--   * Server, its task group and Client (src/server.cpp, src/task_group.hpp, src/client.cpp) are Server,
--     Server/Tasks and Client, and Server/Lifecycle the coroutines of a server from its constructor to
--     its destructor, with those of clients on the same io_context; what sockets, TLS and the scheduler
--     answer is an argument.
--   * The log levels and the formatters (include/nghttp2-corosio/logging.hpp and formatter.hpp) are
--     Logging and Formatter.
--   * run_io_context() (include/nghttp2-corosio/run_io_context.hpp) is RunLoop; the io_context is a
--     parameter, with what its documentation says of run() and run_one() as a hypothesis. Demo has the
--     TCP echo of main.cpp and the command line of server_main.cpp.
--   * Capy has the interfaces to capy: async_event as a type with operations and their laws, and
--     buffer_copy() as the number of bytes that it copies. Base has lists, bytes and integers.
--   * Tests runs the definitions at concrete inputs.
--
-- A read drains the queue of chunks with fuel `enough`, two more than the chunks in it: each turn of the
-- loop takes a chunk away or fills the caller's buffers. `digits_of` has fuel above the number itself,
-- and run_io_context() above the number of handlers to run. Loops over rounds are structural. A buffer
-- sequence is the bytes that it holds; the cap on the number of its buffers is not modelled. Sizes are
-- natural numbers where the code cannot exceed them; the status keeps its conversions to `int` and
-- back, a port its conversion to 16 bits, and parsed numbers their limits.
--
-- Not modelled: output to the terminal and timestamps, capy's read() and write() algorithms, sockets
-- and TLS beyond what they return, the other tests and the build files.
pub mod Base
pub mod Capy
pub mod Decimal
pub mod Stream
pub mod Session
pub mod Message
pub mod SendLoop
pub mod RecvLoop
pub mod Echo
pub mod Server
pub mod Client
pub mod Logging
pub mod Formatter
pub mod Handlers
pub mod Demo
pub mod RunLoop
mod Tests
