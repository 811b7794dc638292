-- ===== src/Tests/Users.antt =====
-- Runs of the theorems on entities/user, utils/string.cpp and response.cpp.
use clean_architecture_cpp.Base.{◌≡◌, ◌⊎◌, refl, [], codes, arith}
use clean_architecture_cpp.Entities.Log.{value}
use clean_architecture_cpp.Entities.User.{User, make_user}
use clean_architecture_cpp.Entities.User.Validation.{IsUsername, Refused, make_user_outcome}
use clean_architecture_cpp.Utils.Strings.{trim}

abbrev alice : User
alice = record { id = codes "1"; username = codes "alice123"; password = []; hashed = [] }

make_user_outcome_example :
    ((make_user (codes "1") (codes " alice123") []).1 ≡ trim (codes " alice123"))
    × ((((make_user (codes "1") (codes " alice123") []).0
            ≡ value (record {
              id = codes "1";
              username = trim (codes " alice123");
              password = [];
              hashed = [];
            }))
          × IsUsername (trim (codes " alice123")))
        ⊎ Refused (trim (codes " alice123")) (make_user (codes "1") (codes " alice123") []).0)
make_user_outcome_example = make_user_outcome (codes "1") (codes " alice123") []

alice-IsUsername : IsUsername (codes "alice123")
alice-IsUsername = record { trimmed = (refl, refl); long = omega arith; short = omega arith }
