-- ===== src/Http/Server/Lifetimes.antt =====
-- Which connections are alive when their handlers run.
use clean_architecture_cpp.Base.{
  ℕ, ◌+◌, ◌<◌, ◌≡◌, refl, sym, ◌∙◌, ap, subst, true, false, Bool-cases, inl, inr, none, some, List,
  [], ◌∷◌, ◌++◌, All, arith,
}
use clean_architecture_cpp.Http.Connection.{Pending, reading, writing, idle}
use clean_architecture_cpp.Http.Server.{
  ErrorCode, success, operation_aborted, other_error, Kind, read, write, Operation, Server, has,
  erase, begin, start, stop, stop_all, on_accept, on_signal, proceed, on_completed, uses_connection,
  new_server, Step, accepts, completes, runs, signalled, Reach, here, next,
}
use clean_architecture_cpp.Http.Server.Owners.{
  owners, Distinct, owners-append, owners-close, owners-close_all, Distinct-middle, All-middle,
  has_of_given, All-map, alive-erase, alive-start,
}

-- Every connection has one operation at most, which has a number that was given out. As long as the
-- acceptor is open, the connections with an operation are alive; once it is closed, none is alive.
pub record IsManaged (s : Server) : Type 0 where
  pub distinct : Distinct (owners s.operations)
  pub given : All (λ i. i < s.made) (owners s.operations)
  pub alive : s.acceptor_open ≡ true → All (λ i. has i s.connections ≡ true) (owners s.operations)
  pub stopped : s.acceptor_open ≡ false → s.connections ≡ []

module _ (s : Server) (v : IsManaged s) where
  taken-IsManaged :
      (xs ys : List Operation) (op : Operation)
      → s.operations ≡ xs ++ op ∷ ys
      → IsManaged (record s { operations = xs ++ ys })
        × (has op.owner (owners (xs ++ ys)) ≡ false)
        × (op.owner < s.made)
  taken-IsManaged xs ys op e =
      let split : owners s.operations ≡ owners xs ++ op.owner ∷ owners ys =
        ap owners e ∙ owners-append xs (op ∷ ys) in
      let join = sym (owners-append xs ys) in
      let (fresh, distinct) =
        Distinct-middle (owners xs) (owners ys) op.owner (subst Distinct split v.distinct) in
      let (lt, given) =
        All-middle (λ i. i < s.made) (owners xs) (owners ys) op.owner
          (subst (All (λ i. i < s.made)) split v.given) in
      (
        record {
          distinct = subst Distinct join distinct;
          given = subst (All (λ i. i < s.made)) join given;
          alive = λ o.
              subst (All (λ i. has i s.connections ≡ true)) join
                (All-middle (λ i. has i s.connections ≡ true) (owners xs) (owners ys) op.owner
                  (subst (All (λ i. has i s.connections ≡ true)) split (v.alive o))).1;
          stopped = v.stopped;
        },
        subst (λ l. has op.owner l ≡ false) join fresh,
        lt,
      )

  begin-IsManaged :
      (id : ℕ) (kind : Kind)
      → has id (owners s.operations) ≡ false
      → id < s.made
      → (s.acceptor_open ≡ true → has id s.connections ≡ true)
      → IsManaged (begin id kind s)
  begin-IsManaged id kind fresh lt live = record {
    distinct = (fresh, v.distinct);
    given = (lt, v.given);
    alive = λ o. (live o, v.alive o);
    stopped = v.stopped;
  }

  stop-IsManaged : (id : ℕ) → has id (owners s.operations) ≡ false → IsManaged (stop id s)
  unfolding stop erase
  stop-IsManaged id fresh =
      let same = sym (owners-close id s.operations) in
      record {
        distinct = subst Distinct same v.distinct;
        given = subst (All (λ i. i < s.made)) same v.given;
        alive = λ o.
            subst (All (λ i. has i (erase id s.connections) ≡ true)) same
              (alive-erase id (owners s.operations) s.connections fresh (v.alive o));
        stopped = λ c. ap (erase id) (v.stopped c);
      }

  proceed-IsManaged :
      (id : ℕ) (asked : Pending)
      → has id (owners s.operations) ≡ false
      → id < s.made
      → (s.acceptor_open ≡ true → has id s.connections ≡ true)
      → IsManaged (proceed id asked s)
  proceed-IsManaged id reading fresh lt live = begin-IsManaged id read fresh lt live
  proceed-IsManaged id writing fresh lt live = begin-IsManaged id write fresh lt live
  proceed-IsManaged id idle fresh lt live = v

  on_completed-IsManaged :
      (id : ℕ) (kind : Kind) (ec : ErrorCode) (asked : Pending)
      → has id (owners s.operations) ≡ false
      → id < s.made
      → (uses_connection ec ≡ true → has id s.connections ≡ true)
      → IsManaged (on_completed id kind ec asked s)
  unfolding on_completed
  on_completed-IsManaged id read success asked f l live =
      proceed-IsManaged id asked f l (λ o. live refl)
  on_completed-IsManaged id read operation_aborted asked f l live = v
  on_completed-IsManaged id read other_error asked f l live = stop-IsManaged id f
  on_completed-IsManaged id write success asked f l live =
      begin-IsManaged id read f l (λ o. live refl)
  on_completed-IsManaged id write operation_aborted asked f l live = v
  on_completed-IsManaged id write other_error asked f l live =
      begin-IsManaged id read f l (λ o. live refl)

  start-IsManaged :
      s.acceptor_open ≡ true → IsManaged (start s.made (record s { made = s.made + 1 }))
  unfolding start has
  start-IsManaged open' = record {
    distinct = (has_of_given s.made (owners s.operations) v.given, v.distinct);
    given = (
      omega arith,
      All-map (λ i. i < s.made) (λ i. i < s.made + 1) (owners s.operations) (λ i p. omega arith)
          v.given,
    );
    alive = λ o. (ground arith, alive-start s.made (owners s.operations) s.connections (v.alive o));
    stopped = λ c. absurd (cc);
  }

  on_accept-IsManaged : (ec : ErrorCode) → IsManaged (on_accept ec s)
  unfolding on_accept
  on_accept-IsManaged ec = elim (Bool-cases s.acceptor_open) [
    | inl e ↦ rw e (accepted ec e)
    | inr e ↦ rw e (record {
      distinct = v.distinct;
      given = v.given;
      alive = λ o. absurd (cc);
      stopped = λ c. v.stopped e;
    })
  ]
    where
      accepted :
          (ec : ErrorCode)
          → s.acceptor_open ≡ true
          → IsManaged (elim ec [ success ↦ start s.made (record s { made = s.made + 1 }) | _ ↦ s ])
      accepted success e = start-IsManaged e
      accepted operation_aborted e = v
      accepted other_error e = v

  on_signal-IsManaged : IsManaged (on_signal s)
  unfolding on_signal stop_all
  on_signal-IsManaged =
      let same = sym (owners-close_all s.connections s.operations) in
      record {
        distinct = subst Distinct same v.distinct;
        given = subst (All (λ i. i < s.made)) same v.given;
        alive = λ o. cc;
        stopped = λ c. refl;
      }

Step-IsManaged : {s t : Server} → Step s t → IsManaged s → IsManaged t
Step-IsManaged {s} (accepts ec p) v = on_accept-IsManaged s v ec
Step-IsManaged {s} (completes xs ys id kind ec e) v =
    let op : Operation = record { owner = id; kind = kind; outcome = none } in
    let done : Operation = record { owner = id; kind = kind; outcome = some ec } in
    let same : owners s.operations ≡ owners (xs ++ done ∷ ys) =
      ap owners e ∙ owners-append xs (op ∷ ys) ∙ sym (owners-append xs (done ∷ ys)) in
    record {
      distinct = subst Distinct same v.distinct;
      given = subst (All (λ i. i < s.made)) same v.given;
      alive = λ o. subst (All (λ i. has i s.connections ≡ true)) same (v.alive o);
      stopped = v.stopped;
    }
Step-IsManaged {s} (runs xs ys id kind ec asked e live) v =
    let (w, fresh, lt) =
      taken-IsManaged s v xs ys (record { owner = id; kind = kind; outcome = some ec }) e in
    on_completed-IsManaged (record s { operations = xs ++ ys }) w id kind ec asked fresh lt live
Step-IsManaged {s} (signalled p) v = on_signal-IsManaged s v

pub Reach-IsManaged : {s t : Server} → IsManaged s → Reach s t → IsManaged t
Reach-IsManaged v here = v
Reach-IsManaged v (next r st) = Step-IsManaged st (Reach-IsManaged v r)

pub new_server-IsManaged : IsManaged new_server
new_server-IsManaged = record { distinct = tt; given = tt; alive = λ o. tt; stopped = λ c. refl }

-- Whatever asio and the clients do, a handler that is queued finds its connection alive exactly as
-- long as the acceptor is open: no longer once a signal has stopped the server.
pub Reach-alive :
    {s : Server} (xs ys : List Operation) (op : Operation)
    → Reach new_server s
    → s.operations ≡ xs ++ op ∷ ys
    → has op.owner s.connections ≡ s.acceptor_open
unfolding has
Reach-alive {s} xs ys op r e =
    let v = Reach-IsManaged new_server-IsManaged r in
    elim (Bool-cases s.acceptor_open) [
      | inl o ↦
          (All-middle (λ i. has i s.connections ≡ true) (owners xs) (owners ys) op.owner
            (subst (All (λ i. has i s.connections ≡ true))
              (ap owners e ∙ owners-append xs (op ∷ ys)) (v.alive o))).0
          ∙ sym o
      | inr o ↦ ap (has op.owner) (v.stopped o) ∙ sym o
    ]
