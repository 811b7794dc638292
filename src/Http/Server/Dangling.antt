-- ===== src/Http/Server/Dangling.antt =====
-- The handlers that a signal leaves without a connection.
use clean_architecture_cpp.Base.{
  true, ℕ, ◌==◌, ◌≡◌, refl, ◌∙◌, ap, false, Bool-cases, inl, inr, some, List, [], ◌∷◌, ◌++◌,
}
use clean_architecture_cpp.Http.Server.Lifetimes.{Reach-alive}
use clean_architecture_cpp.Http.Server.{
  Reach, new_server, next, signalled, ErrorCode, Kind, Operation, Server, has, abort_of, close,
  close_all, stop_all, on_signal,
}

close-middle :
    (id : ℕ) (xs ys : List Operation) (owner : ℕ) (kind : Kind) (ec : ErrorCode)
    → (xs' : List Operation) × (ys' : List Operation) × (close id
          (xs ++ record { owner = owner; kind = kind; outcome = some ec } ∷ ys)
        ≡ xs' ++ record { owner = owner; kind = kind; outcome = some ec } ∷ ys')
unfolding close
close-middle id [] ys owner kind ec = elim (Bool-cases (owner == id)) [
  | inl e ↦ ([], close id ys, rw e)
  | inr e ↦ ([], close id ys, rw e)
]
close-middle id (op ∷ xs) ys owner kind ec =
    let (xs', ys', e) = close-middle id xs ys owner kind ec in
    (abort_of id op ∷ xs', ys', ap (λ l. abort_of id op ∷ l) e)

close_all-middle :
    (ids : List ℕ) (xs ys : List Operation) (owner : ℕ) (kind : Kind) (ec : ErrorCode)
    → (xs' : List Operation) × (ys' : List Operation) × (close_all ids
          (xs ++ record { owner = owner; kind = kind; outcome = some ec } ∷ ys)
        ≡ xs' ++ record { owner = owner; kind = kind; outcome = some ec } ∷ ys')
unfolding close_all
close_all-middle [] xs ys owner kind ec = (xs, ys, refl)
close_all-middle (id ∷ ids) xs ys owner kind ec =
    let (xs1, ys1, e) = close-middle id xs ys owner kind ec in
    let (xs2, ys2, f) = close_all-middle ids xs1 ys1 owner kind ec in
    (xs2, ys2, ap (close_all ids) e ∙ f)

-- Whatever asio and the clients do before a signal, a handler that is queued when the signal arrives
-- has its connection alive until then, and stays queued with its outcome in the state that the signal
-- leads to, where no connection is alive any more: if its operation was not aborted, the handler uses
-- a connection that was freed.
pub on_signal_dangles :
    (s : Server) (xs ys : List Operation) (id : ℕ) (kind : Kind) (ec : ErrorCode)
    → Reach new_server s
    → s.acceptor_open ≡ true
    → s.operations ≡ xs ++ record { owner = id; kind = kind; outcome = some ec } ∷ ys
    → (xs' : List Operation) × (ys' : List Operation) × (has id s.connections ≡ true)
      × Reach new_server (on_signal s)
      × ((on_signal s).operations
          ≡ xs' ++ record { owner = id; kind = kind; outcome = some ec } ∷ ys')
      × (has id (on_signal s).connections ≡ false)
unfolding on_signal stop_all has
on_signal_dangles s xs ys id kind ec r o e =
    let (xs', ys', f) = close_all-middle s.connections xs ys id kind ec in
    let op : Operation = record { owner = id; kind = kind; outcome = some ec } in
    (
      xs',
      ys',
      Reach-alive xs ys op r e ∙ o,
      next r (signalled o),
      ap (close_all s.connections) e ∙ f,
      refl,
    )
