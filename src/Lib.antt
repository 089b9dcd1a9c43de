-- ===== src/Lib.antt =====
-- A verification library of the web server: an HTTP server on Boost.Asio with a configuration in
-- the style of nginx. The definitions follow the C++ sources; the theorems are about them.
--
-- The parts of the program and how they interact. `src/server_main.cc` parses the configuration
-- and makes a server. The server (`src/server.cc`) turns each `location` of the configuration into
-- a request handler, kept in a map by uri, and accepts connections. Each connection has a session
-- (`src/session.cc`), which reads bytes, has the request parser (`src/request_parser.cc`) cut them
-- into requests, finds a handler for each by its uri or answers from a cache that all sessions
-- share, and writes the text that the response builder (`src/response.cc`) makes of the response.
-- Two handlers reach further: the status handler (`src/status_request_handler.cc`) reads the logs
-- that `src/log_helper.cc` has written, and the reverse proxy
-- (`src/reverse_proxy_request_handler.cc`) asks another host.
--
-- Which file models which part:
--   Text, Text.Numbers, Text.Search, Text.Cut, Text.Stream: bytes, and the operations of
--     `std::string`, `std::find`, `std::istream`, `std::stoi`, `atoi` and `std::to_string` that
--     the sources use. A `char` is a number below 256.
--   StdMap: `std::map` and `std::unordered_map` as an association list in the order of the keys.
--   Request, RequestParser: `include/request.h`, `include/request_parser.h`,
--     `src/request_parser.cc`. The state is the record `Parser`; `consume_in` is the switch of
--     `request_parser::consume`, `parse` is `request_parser::parse`. A pointer into the input is
--     the input from it on. Below it: Chunks and Bounds for what `parse` returns, WellFormed,
--     Fields and Sound for what is accepted, Steps, Runs, Endings, Reparse, Unsigned, Cuts and
--     Methods for the text of a request.
--   Response: `src/response.cc`, with each operation of `response_builder` as a function of the
--     response.
--   Config: the data and queries of `src/config_parser.cc` (`parse_port`,
--     `get_value_from_statement`, `get_location_result`, `ToString`). Config.Lexer is
--     `ParseToken`, Config.Parser is `Parse`. The stack of pointers into the tree is a stack of
--     open blocks; a use of the empty stack is the outcome `crashed`. Below it: Words, Rounds,
--     Tokens, Printable and RoundTrip for printing and parsing, Fuel, Sound and Accepted for what
--     is accepted, Port and Locations for the queries.
--   Handlers: `src/echo_request_handler.cc`, `src/health_request_handler.cc`,
--     `src/not_found_request_handler.cc`, `src/static_request_handler.cc`, one `handle_request`
--     each.
--   Handlers.Proxy: `src/reverse_proxy_request_handler.cc`. Its Url is `parse_url`, Forward is
--     `get_proxy_request` and `request_to_string`, and Exchange is `send_request` and
--     `handle_redirect`, which call each other there and are one step and a loop here. Sent,
--     Prefix, Located, Redirects, Looping, Fields, Chunks, Relayed, Exchanged and Lengths are
--     proofs.
--   Handlers.Status: `src/status_request_handler.cc`. Metrics, Requests, Mixed and Table are
--     about what it reads of the lines of the logs, Page and Answers are about its response.
--   Session.Routing: `session::process_req`, which acts on what the sessions share: the cache
--     and the log; Memo specifies a server that remembers by uri, and is about sequences of
--     requests. Session.Receive: `session::received_req`, `session::thread_work` and the other
--     operations, which act on the session's request, its parser and its connection; Conversation,
--     Delivered and Clients are about all the reads of a client, Hangs and Trailing about reads
--     that it never leaves, Gone about a peer that has left, Logged about what it logs, and
--     Reported about the status page of that. Session.Lifetime: the callbacks of a session's life,
--     in any order; Guarded, Silent and Ending are proofs about them.
--   Connection: `include/connection.h`, `src/connection.cc`, as what a connection has asked of
--     Boost.Asio.
--   Server: the map that the constructor of the server makes, by `add_request_handler`, and the
--     `init` functions of the handlers.
--   Server.Connections: `start_accept` and the destructor of a connection, as steps in any
--     order.
--   Server.Accepting: those, `handle_accept` and `signal_handler`, as what Boost.Asio calls.
--     Upstream is about a server that is the destination of another's proxy.
--   Main: `src/server_main.cc`. Starting, Returning and Measured are proofs.
--   Log: the messages of `src/log_helper.cc`.
--   Prelude: numbers, lists, and the type Result of a call, which is a value, an exception, or
--     undefined behaviour.
--
-- Parameters. World holds what the server reads of its machine: the files, the text of the date,
-- the files of the logs and the name of the host. Every call of a handler by a session is given
-- the machine as it is then: `Shared` has the machine of each call to come, so files, logs and the
-- date may change between any two. Network, which the machine's moment may decide, is what Boost
-- does for the proxy: the bytes that a host sends back, in the parts that the reads deliver, and
-- `boost::replace_all`. Platform is what the acceptor throws for a port, and the messages of
-- exceptions. The address of the peer is part of the connection, and is missing where the peer has
-- left. The handlers stand behind the interface RequestHandler, as in `include/request_handler.h`,
-- and their `init` functions behind Inits, which `inits` of Server fills. An `int` has 32 bits;
-- going out of its range is undefined behaviour. Two counters have no bound in the model: the
-- count of open brackets in `Parse`, and the count of the words of a line in the status handler,
-- of which only the parity is kept. They leave their range at 2^31 braces or spaces, in a text of
-- two gigabytes.
--
-- Fuel. The loop of `NginxConfigParser::Parse` has one round more than the bytes of its input, and
-- never needs more. The loop of `received_req` does not always end, so its fuel is an argument,
-- and a theorem that a session answers holds from one round on. The calls of `send_request` and
-- `handle_redirect` may go on for ever too: their fuel is how many calls the stack holds. Every
-- other loop is structural.
--
-- Not modelled: Boost.Asio itself (sockets, timers, threads), of which the steps of a session and
-- of the server say when it calls back, the set up of Boost.Log behind the messages, the lines
-- that the proxy logs, and the console output. How many bytes of a response have left is not
-- modelled. The sessions of several threads write the shared cache with no lock; here a call of
-- `process_req` is one step.
mod Prelude
pub mod Text
pub mod StdMap
pub mod Request
pub mod RequestParser
pub mod World
pub mod Response
pub mod Config
pub mod Connection
pub mod Log
pub mod Handlers
pub mod Session
pub mod Server
pub mod Main
