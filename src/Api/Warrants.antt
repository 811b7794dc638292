-- ===== src/Api/Warrants.antt =====
-- Whose sessions the store holds: the invariant that the API keeps, over any store and database.
pub mod Sessions
pub mod Logins
pub mod Answers
pub mod Traces
pub mod Databases
pub mod Returning
pub mod Answering
use clean_architecture_cpp.Base.{ℕ, ◌≡◌, Bool, true, Option, none, some, Text, Lacks}
use clean_architecture_cpp.Entities.Log.{Expected, value}
use clean_architecture_cpp.Entities.User.{User, Crypto, verify_password}
use clean_architecture_cpp.Store.{ran}
use clean_architecture_cpp.Adapters.Wrapper.{WrapperRequest}
use clean_architecture_cpp.UseCases.{IUserDb}

module _ {D : Type 0} (users : IUserDb D) (crypto : Crypto) where
  -- A user whom the database has found under some name, in some state, and of whom some password was
  -- verified.
  pub record IsCredited (user : User) : Type 0 where
    pub name : Text
    pub password : Text
    pub before : D
    pub after : D
    pub found : users.get_user_by_username name before ≡ ran (value user) after
    pub verified : verify_password crypto password user ≡ some (value true)

  module _ (encode : Text → Text → Text) where
    -- The bytes of a session are those of a user who was credited.
    abbrev pub IsWarranted : Option Text → Type 0
    IsWarranted none = Unit
    IsWarranted (some bytes) =
        (user : User) × IsCredited user × (bytes ≡ encode user.id user.username)

    -- A request over a store that is ready and holds such sessions alone.
    pub record IsSound {S : Type 0} (Ready : S → Type 0) (view : S → Text → Option Text)
        (x : WrapperRequest S) : Type 0 where
      pub ready : Ready x.store
      pub plain : Lacks 0 x.req.session_id
      pub warranted : (k : Text) → IsWarranted (view x.store k)
