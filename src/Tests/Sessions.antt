-- ===== src/Tests/Sessions.antt =====
-- Runs of the theorems on wrapper.hpp and wrapper.cpp, with a list of keys and values for the store.
use clean_architecture_cpp.Base.{
  true, ℕ, ◌≡◌, refl, Option, none, some, [], ◌∷◌, ◌++◌, Text, codes, length, take, drop,
  take-append, drop-append, arith,
}
use clean_architecture_cpp.Entities.Log.{value}
use clean_architecture_cpp.Entities.User.{User}
use clean_architecture_cpp.Http.Message.{fresh_request, fresh_response}
use clean_architecture_cpp.Store.{ran, IStore, IsStore, is_some}
use clean_architecture_cpp.Adapters.Wrapper.{
  WrapperRequest, session_user, set_session_user, get_session_user,
}
use clean_architecture_cpp.Adapters.Wrapper.Sessions.{
  HasOpened, set_session_user-HasOpened, get_session_user-set_session_user,
}
use clean_architecture_cpp.Tests.Storing.{Entries, lookup, insert, remove, lookup-remove}

abbrev pub entries : IStore Entries
entries = record {
  exists = λ k s. ran (is_some (lookup s k)) s;
  set_byte_array = λ k v s. ran true (insert k v s);
  get_byte_array = λ k s. ran (value (lookup s k)) s;
  del = λ k s. ran (is_some (lookup s k)) (remove k s);
}

abbrev pub Any : Entries → Type 0
Any s = Unit

pub entries-IsStore : IsStore entries Any lookup
entries-IsStore = record {
  exists_lem =
      λ k s h r. record { after = s; same = refl; ready_after = tt; view_after = λ j. refl };
  set_byte_array_lem = λ k v s h r. record {
    after = insert k v s;
    same = refl;
    ready_after = tt;
    view_after = λ j. refl;
  };
  get_byte_array_lem =
      λ k s h r. record { after = s; same = refl; ready_after = tt; view_after = λ j. refl };
  del_lem = λ k s h r. record {
    after = remove k s;
    same = refl;
    ready_after = tt;
    view_after = λ j. lookup-remove k j s;
  };
}

-- The n-th call of `getrandom` fills the buffer with n.
abbrev pub words : ℕ → ℕ → ℕ
words n i = n

abbrev pub pack : Text → Text → Text
pack id name = length id ∷ (id ++ name)

abbrev pub unpack : Text → Option (Option Text × Option Text)
unpack [] = none
unpack (n ∷ s) = some (some (take n s), some (drop n s))

pub unpack-pack : (id name : Text) → unpack (pack id name) ≡ some (some id, some name)
unpack-pack id name = rw (take-append id name, drop-append id name)

abbrev pub bob : User
bob = record {
  id = codes "7";
  username = codes "bobby123";
  password = [];
  hashed = codes "password";
}

abbrev pub visitor : WrapperRequest Entries
visitor = record { req = fresh_request 1 1; res = fresh_response; store = []; draws = 0 }

set_session_user-HasOpened_example :
    HasOpened entries words Any lookup entries-IsStore pack unpack 1 bob visitor
set_session_user-HasOpened_example =
    set_session_user-HasOpened entries words Any lookup entries-IsStore pack unpack 1 0 bob visitor
      tt (omega arith) refl

get_session_user-set_session_user_example :
    (x' x'' : WrapperRequest Entries) × (set_session_user entries words pack unpack 1 bob visitor
      ≡ ran none x')
    × (get_session_user entries words pack unpack x'
        ≡ ran (some (session_user bob.id bob.username)) x'')
get_session_user-set_session_user_example =
    get_session_user-set_session_user entries words Any lookup entries-IsStore pack unpack 1 0 bob
      visitor tt (omega arith) refl unpack-pack (refl, tt)
      (refl, (refl, (refl, (refl, (refl, (refl, (refl, (refl, tt))))))))

-- A request of the session "a".
abbrev pub member : WrapperRequest Entries
member = record {
  req = record (fresh_request 1 1) { session_id = codes "a" };
  res = fresh_response;
  store = (codes "sess:a", pack (codes "7") (codes "bobby123")) ∷ [];
  draws = 0;
}
