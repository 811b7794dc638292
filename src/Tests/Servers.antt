-- ===== src/Tests/Servers.antt =====
-- Runs of the theorems on server.cpp and connection_manager.cpp: a client connects, and a signal comes.
use clean_architecture_cpp.Base.{true, ◌≡◌, refl, false, none, some, List, [], ◌∷◌, ◌++◌}
use clean_architecture_cpp.Http.Server.{
  success, read, Operation, Server, has, start, on_accept, on_signal, new_server, Step, accepts,
  completes, here, next, Reach,
}
use clean_architecture_cpp.Http.Server.Lifetimes.{Reach-alive}
use clean_architecture_cpp.Http.Server.Dangling.{on_signal_dangles}

-- The first connection is read from, and its read is completed.
abbrev connected : Server
connected = record new_server {
  connections = 0 ∷ [];
  operations = record { owner = 0; kind = read; outcome = none } ∷ [];
  made = 1;
}

abbrev queued : Operation
queued = record { owner = 0; kind = read; outcome = some success }

abbrev completed : Server
completed = record connected { operations = queued ∷ [] }

connected-Step : Step new_server connected
unfolding on_accept start
connected-Step = accepts success refl

completed-Step : Step connected completed
completed-Step = completes [] [] 0 read success refl

Reach-alive_example : has 0 completed.connections ≡ completed.acceptor_open
Reach-alive_example = Reach-alive [] [] queued (next (next here connected-Step) completed-Step) refl

on_signal_dangles_example :
    (xs ys : List Operation) × (has 0 completed.connections ≡ true)
    × Reach new_server (on_signal completed)
    × ((on_signal completed).operations ≡ xs ++ queued ∷ ys)
    × (has 0 (on_signal completed).connections ≡ false)
on_signal_dangles_example =
    on_signal_dangles completed [] [] 0 read success
      (next (next here connected-Step) completed-Step) refl refl
