-- ===== src/Tests/Databases.antt =====
-- Runs of the theorems on pg.cpp, with a server that keeps the prepared statements only.
use clean_architecture_cpp.Base.{
  ℕ, ◌+◌, ◌≡◌, refl, Bool, true, false, ◌&&◌, ◌==◌, ==_refl, if◌then◌else◌, Option, none, some,
  List, [], ◌∷◌, Text, codes, length, text_eq, text_eq_refl, inr, arith,
}
use clean_architecture_cpp.Pool.{Pool, get_context}
use clean_architecture_cpp.Store.{ran}
use clean_architecture_cpp.Api.Warrants.Databases.{IsAnswering}
use clean_architecture_cpp.Store.Redis.Laws.{IsReady}
use clean_architecture_cpp.Database.Answering.{user_db-IsAnswering}
use clean_architecture_cpp.Database.{
  PostgresResult, PostgresStatement, Postgres, insert_user, make_user_postgres, user_db,
  UserPostgres, get_cell,
}
use clean_architecture_cpp.Database.Statements.{IsServer}
use clean_architecture_cpp.Database.Logins.{login_after_registration}
use clean_architecture_cpp.Http.Message.{fresh_request}
use clean_architecture_cpp.Adapters.Wrapper.{get_session_id}
use clean_architecture_cpp.UseCases.{World, parse_body, login}
use clean_architecture_cpp.UseCases.Login.{LoginLeaves}
use clean_architecture_cpp.Tests.Logins.{crypto, json, flat, sent}
use clean_architecture_cpp.Tests.Sessions.{
  entries, Any, entries-IsStore, words, pack, unpack, visitor,
}
use clean_architecture_cpp.Tests.Storing.{Entries, lookup}

abbrev Statements : Type 0
Statements = ℕ → Text → Option Text

abbrev one_row : PostgresResult
one_row = record {
  fatal_error = false;
  message = [];
  constraint_name = none;
  rows = (codes "8" ∷ []) ∷ [];
}

abbrev missing : PostgresResult
missing = record {
  fatal_error = true;
  message = codes "missing";
  constraint_name = none;
  rows = [];
}

abbrev answers : Text → List Text → Statements → PostgresResult × Statements
answers q vs w = (if text_eq q insert_user && length vs == 1 then missing else one_row, w)

abbrev exec : ℕ → Text → List Text → Statements → PostgresResult × Statements
exec c n vs w = elim (w c n) [ none ↦ (missing, w) | some q ↦ answers q vs w ]

abbrev prepare_on : ℕ → PostgresStatement → Statements → Bool × Statements
prepare_on c st w = elim (w c st.name) [
  | none ↦ (true, λ d m. if (c == d) && text_eq st.name m then some st.query_text else w d m)
  | some q ↦ (false, w)
]

abbrev prepared : Statements → ℕ → Text → Option Text
prepared w c n = w c n

server-IsServer : IsServer exec prepare_on prepared answers (λ q. true)
server-IsServer = record {
  runs = λ c n q vs w h. rw (h, exec);
  misses = λ c n vs w h. (missing, rw (h, exec), refl);
  prepares = λ c st w h ok. (
    λ d m. if (c == d) && text_eq st.name m then some st.query_text else w d m,
    rw (h, prepare_on),
    rw (==_refl c, text_eq_refl st.name),
  );
  refuses = λ c st q w h. rw (h, prepare_on);
  keeps = λ c n q vs w. refl;
}

-- A pool of the connection 1, on which the query for a user is prepared, and one on which nothing is.
abbrev fresh : Postgres Statements
fresh = record {
  pool = record { idle = 1 ∷ []; permits = 1 };
  statement_count = 0;
  server = λ c n. none;
}

abbrev registered : Postgres Statements
registered = record fresh { server = λ c n. some insert_user }

abbrev empty_pool : Pool
empty_pool = record { idle = []; permits = 0 }

abbrev visit : World Entries (Postgres Statements)
visit = record {
  request = record visitor { req = record (fresh_request 1 1) { body = codes "password" } };
  users = registered;
}

login_after_registration_example :
    let users = user_db exec prepare_on (make_user_postgres fresh) in
    (w' : World Entries (Postgres Statements)) × (login entries words users crypto json flat pack
        unpack 1 visit
      ≡ ran tt w')
    × LoginLeaves entries words users crypto json flat pack unpack 1 Any lookup entries-IsStore none
        visit w'
unfolding get_context parse_body get_session_id text_eq
login_after_registration_example =
    login_after_registration exec prepare_on prepared answers (λ q. true) server-IsServer entries
      words crypto json flat pack unpack 1 Any lookup entries-IsStore fresh visit sent 1 empty_pool
      0 refl refl refl tt tt refl refl refl (omega arith) refl

-- A server on which every statement gives one row of three cells.
abbrev user_row : PostgresResult
user_row = record {
  fatal_error = false;
  message = [];
  constraint_name = none;
  rows = (codes "8" ∷ codes "bobby123" ∷ codes "password" ∷ []) ∷ [];
}

abbrev always : ℕ → Text → List Text → ℕ → PostgresResult × ℕ
always c name values w = (user_row, w + 1)

abbrev never_prepares : ℕ → PostgresStatement → ℕ → Bool × ℕ
never_prepares c st w = (false, w)

abbrev statements : UserPostgres
statements = make_user_postgres fresh

user_db-IsAnswering_example :
    IsAnswering (user_db always never_prepares statements) (λ (p : Postgres ℕ). IsReady p.pool)
unfolding get_cell
user_db-IsAnswering_example =
    user_db-IsAnswering always never_prepares statements
      (λ c name w e. inr (codes "8", codes "password", refl, refl))
      (λ c name hashed w e. (codes "8", refl))
