-- ===== src/Http/Server.antt =====
-- server.cpp, connection_manager.cpp and the life of the connections of connection.cpp. A connection is
-- a number; it is alive as long as the manager holds it, since the handlers capture `this` alone. asio
-- is the environment: it completes an operation at any time, and runs a handler that is queued.
pub mod Owners
pub mod Lifetimes
pub mod Dangling
use clean_architecture_cpp.Base.{
  ℕ, ◌+◌, ◌==◌, ◌≡◌, Bool, true, false, ◌||◌, if◌then◌else◌, Option, none, some, List, [], ◌∷◌,
  ◌++◌, map,
}
use clean_architecture_cpp.Http.Connection.{Pending, reading, writing, idle}

pub data ErrorCode : Type 0 where
  success operation_aborted other_error : ErrorCode

pub data Kind : Type 0 where
  read write : Kind

-- An asynchronous operation, whose handler is not run yet; `none` is one that is not completed.
pub record Operation : Type 0 where
  pub owner : ℕ
  pub kind : Kind
  pub outcome : Option ErrorCode

pub record Server : Type 0 where
  pub acceptor_open : Bool
  pub accepting : Bool
  pub connections : List ℕ
  pub operations : List Operation
  pub made : ℕ

unfoldable pub has : ℕ → List ℕ → Bool
has i [] = false
has i (j ∷ js) = i == j || has i js

unfoldable pub erase : ℕ → List ℕ → List ℕ
erase i [] = []
erase i (j ∷ js) = if i == j then erase i js else j ∷ erase i js

-- `do_read` and `do_write` of a connection.
abbrev pub begin : ℕ → Kind → Server → Server
begin id kind s = record s {
  operations = record { owner = id; kind = kind; outcome = none } ∷ s.operations;
}

-- An operation of a socket that is closed is aborted, unless it was completed before.
abbrev pub abort : Option ErrorCode → Option ErrorCode
abort none = some operation_aborted
abort (some ec) = some ec

abbrev pub abort_of : ℕ → Operation → Operation
abort_of id op = if op.owner == id then record op { outcome = abort op.outcome } else op

-- `connection::stop`
unfoldable pub close : ℕ → List Operation → List Operation
close id [] = []
close id (op ∷ ops) = abort_of id op ∷ close id ops

unfoldable pub close_all : List ℕ → List Operation → List Operation
unfolding close
close_all [] ops = ops
close_all (id ∷ ids) ops = close_all ids (close id ops)

-- `connection_manager::start`
unfoldable pub start : ℕ → Server → Server
start id s = begin id read (record s { connections = id ∷ s.connections })

-- `connection_manager::stop`
unfoldable pub stop : ℕ → Server → Server
unfolding close erase
stop id s = record s { connections = erase id s.connections; operations = close id s.operations }

-- `connection_manager::stop_all`
unfoldable pub stop_all : Server → Server
unfolding close_all
stop_all s = record s { connections = []; operations = close_all s.connections s.operations }

-- The handler of `server::do_accept`.
unfoldable pub on_accept : ErrorCode → Server → Server
unfolding start
on_accept ec s =
    if s.acceptor_open
    then elim ec [ success ↦ start s.made (record s { made = s.made + 1 }) | _ ↦ s ]
    else record s { accepting = false }

-- The handler of `server::do_await_stop`.
unfoldable pub on_signal : Server → Server
unfolding stop_all
on_signal s = stop_all (record s { acceptor_open = false })

-- What a handler of a connection does once it has run: the next operation it asks for.
abbrev pub proceed : ℕ → Pending → Server → Server
proceed id reading s = begin id read s
proceed id writing s = begin id write s
proceed id idle s = s

-- The handlers of `do_read` and `do_write`, on a server whose operation was taken away. `asked` is
-- what `on_read` of the connection asks for.
unfoldable pub on_completed : ℕ → Kind → ErrorCode → Pending → Server → Server
unfolding stop
on_completed id read success asked s = proceed id asked s
on_completed id read operation_aborted asked s = s
on_completed id read other_error asked s = stop id s
on_completed id write operation_aborted asked s = s
on_completed id write _ asked s = begin id read s

-- Whether a handler uses its connection: all do but those of an aborted operation.
abbrev pub uses_connection : ErrorCode → Bool
uses_connection operation_aborted = false
uses_connection _ = true

abbrev pub new_server : Server
new_server = record {
  acceptor_open = true;
  accepting = true;
  connections = [];
  operations = [];
  made = 0;
}

-- One event. A handler that uses its connection runs where that is alive; elsewhere its behaviour is
-- undefined, and no step is taken.
pub data Step (s : Server) : Server → Type 0 where
  accepts : (ec : ErrorCode) → s.accepting ≡ true → Step s (on_accept ec s)
  completes :
      (xs ys : List Operation) (id : ℕ) (kind : Kind) (ec : ErrorCode)
      → s.operations ≡ xs ++ record { owner = id; kind = kind; outcome = none } ∷ ys
      → Step s (record s {
        operations = xs ++ record { owner = id; kind = kind; outcome = some ec } ∷ ys;
      })
  runs :
      (xs ys : List Operation) (id : ℕ) (kind : Kind) (ec : ErrorCode) (asked : Pending)
      → s.operations ≡ xs ++ record { owner = id; kind = kind; outcome = some ec } ∷ ys
      → (uses_connection ec ≡ true → has id s.connections ≡ true)
      → Step s (on_completed id kind ec asked (record s { operations = xs ++ ys }))
  signalled : s.acceptor_open ≡ true → Step s (on_signal s)

pub data Reach (s : Server) : Server → Type 0 where
  here : Reach s s
  next : {t u : Server} → Reach s t → Step t u → Reach s u
