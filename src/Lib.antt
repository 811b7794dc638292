-- ===== src/Lib.antt =====
-- Verification of clean-architecture-cpp, an HTTP server with login sessions that are kept in Redis and
-- users that are kept in Postgres. Paths are those of the repository.
--
-- The parts of the program and how they meet. A connection (src/wrappers/http/connection.cpp) reads
-- bytes, feeds them to the request parser (request_parser.cpp), takes what it needs from the headers,
-- and hands the request to the request handler (request_handler.cpp), which finds a callback in its tree
-- of routes. The callback wraps the request and the response (src/adapters/http/wrapper.hpp) and runs a
-- use case (src/use-cases/auth), which works on the user entity (src/entities/user), on the database of
-- users (src/db/user) and on the store of sessions (src/interfaces/store). The response is written by
-- src/wrappers/http/response.cpp. The routes and what they call are a table (src/api/auth.hpp). main
-- (src/main.cpp) reads the environment (src/utils/env.cpp), makes the database and the store, and runs
-- the server (server.cpp), which accepts connections and keeps them alive in a connection manager
-- (connection_manager.cpp) until a signal stops it.
--
-- Which file models which part:
--   Base              lists, bytes, exceptions, std::string::find and substr, std::to_string,
--                     std::stoi and std::stoll. Numbers are native naturals; a text is a list of bytes.
--   Http.Message      request.hpp, header.hpp, cookie.hpp (the struct), response.hpp (the struct)
--   Http.Cookie       cookie.hpp, cookie::to_string
--   Http.Mime         mime_types.cpp
--   Http.Parser       request_parser.cpp: consume and parse. The state and the request go in and out.
--   Http.Router       router.hpp and request_handler.cpp: the constructor and handle_request. A null
--                     callback is none; what handle_request calls is its result. Http.Router.Decoding
--                     has url_decode.
--   Http.Response     response.cpp: to_buffer, to_buffers, the stock pages and stock_response
--   Http.Connection   connection.cpp: parse_cookie, handle_header_buffer, handle_body_buffer, and the
--                     completion of a read. The handler is a parameter with a state of its own;
--                     socket.available() is a Boolean argument; Pending is what is asked of asio next.
--   Http.Server       server.cpp, connection_manager.cpp, and the handlers of do_read and do_write of
--                     connection.cpp with their errors: a step relation, in which asio completes an
--                     operation at any time. A connection is a number.
--   Entities.Log      src/entities/log/main.hpp
--   Entities.User     src/entities/user/build.hpp and factory.cpp
--   Utils.Strings     src/utils/string.cpp
--   Utils.Env         src/utils/env.cpp; a file is what it holds, if it can be opened
--   Utils.Number      src/utils/number.cpp
--   Pool              the pools of connections of src/interfaces/store/redis.cpp and
--                     src/db/core/pg.cpp, their constructors and destructors; Pool.Racing has their
--                     threads call by call
--   Store             src/interfaces/store/build.hpp: the operations that sessions use and their laws;
--                     Store.Ensures has the rules for what holds of a call that returns, and for a call
--                     that returns
--   Store.Redis       src/interfaces/store/redis.cpp
--   Adapters.Wrapper  src/adapters/http/wrapper.hpp, wrapper.cpp and build.hpp: the sessions and the
--                     statuses; Adapters.Wrapper.Logging has the log of a request
--   Database          src/db/core/pg.hpp and pg.cpp, src/db/user/pg.hpp and pg.cpp; Database.Cells has
--                     the cells by their type, and Database.Answering is about what Api.Warrants asks
--                     of a database
--   UseCases          login.hpp, register.hpp, logout.hpp and user.hpp of src/use-cases/auth;
--                     UseCases.Singletons has singleton.cpp there and src/db/user/singleton.hpp
--   Api               src/api/auth.hpp, with the request handler over its routes; Api.Warrants is about
--                     requests that are answered one after another
--   Crypto            src/interfaces/crypto/main.cpp and singleton.cpp, and UserCrypto of
--                     src/entities/user/factory.hpp
--   Loggers           src/interfaces/logger: build.hpp, dev.cpp and silent.hpp
--   Startup           src/main.cpp, src/db/core/singleton.cpp, src/interfaces/store/singleton.cpp, and
--                     the threads of server.cpp
--   Tests             runs of the theorems on concrete inputs
--
-- Effects. Code that throws returns Throws; code that can wait at a semaphore or read through a null
-- pointer returns Run; errors of tl::expected are Expected. The threads of a pool are two step
-- relations: one whose steps do not overlap, and one of single calls of the semaphore and the deque. So
-- are the threads that make the objects of the use cases, by single reads, writes and calls of a mutex,
-- which all threads see in one order. The requests of a trace are answered one after another: the API is
-- not modelled under requests that overlap. The handlers of the server run one after another too, each as
-- one step, though server.cpp runs its context on several threads. Cryptography that ends the process, by
-- an exception in a noexcept function, answers the use cases with none, and they then crash;
-- Crypto.UserCrypto says where that happens. So does the reader of a flatbuffer that was not verified,
-- where a read of it is out of bounds.
--
-- Bounds and fuel. The version numbers of a request wrap at 32 bits, where C++ leaves signed overflow
-- open. The length of a password is cut to 32 bits, as set_password does. The loops over a path and over a Cookie header run on fuel of one more than the text's length,
-- which the theorems show to be enough. The loop that draws session ids runs on a fuel that the caller
-- chooses; it ends if one of the ids drawn within it is free.
--
-- What the model takes as parameters: the Redis server with its client library (one function that answers
-- a command, with the documented behaviour as hypotheses), the Postgres server with libpq (likewise),
-- argon2 (likewise), what a connection attempt gives, whether asio can listen, the number of threads of
-- the machine, getrandom, flatbuffers, json, the time, and floating-point numbers with what std::stof and
-- std::stod read and hiredis writes.
--
-- What is not modelled: sockets, their options and the event loop of asio beyond what handlers it runs,
-- allocations that fail, what is only logged inside the use cases, generated code, and the tests with
-- their mocks.
pub mod Adapters
pub mod Api
pub mod Base
pub mod Crypto
pub mod Database
pub mod Entities
pub mod Http
pub mod Loggers
pub mod Pool
pub mod Startup
pub mod Store
pub mod Tests
pub mod UseCases
pub mod Utils
