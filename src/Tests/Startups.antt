-- ===== src/Tests/Startups.antt =====
-- Runs of the theorems on main.cpp, env.cpp and the cryptography, with an argon2 that does not hide the
-- password.
use clean_architecture_cpp.Base.{
  ◌==◌, ℕ, ◌≡◌, refl, false, if◌then◌else◌, Option, none, some, List, [], ◌∷◌, Text, codes, All,
  ret,
}
use clean_architecture_cpp.Base.Integer.{ℤ}
use clean_architecture_cpp.Pool.{Attempt, connected, failed}
use clean_architecture_cpp.Startup.{Startup}
use clean_architecture_cpp.Startup.{uint_of}
use clean_architecture_cpp.Startup.Settings.{uint_of-to_string}
use clean_architecture_cpp.Base.Decimal.{to_string}
use clean_architecture_cpp.Base.{ltb, ◌^◌, ◌%◌, ◌-◌, text_eq, if◌then◌else◌}
use clean_architecture_cpp.Store.Redis.{c_string}
use clean_architecture_cpp.Utils.Env.{Environ, init_env, get_env, getenv}
use clean_architecture_cpp.Utils.Env.Files.{
  IsSetting, file_of, last_setting, setting_or, get_env-init_env,
}

abbrev settings : List (Text × Text)
settings = (codes "PORT", codes "1") ∷ (codes "PORT", codes "80") ∷ []

port-IsSetting :
    (val : Text)
    → All (λ c. (c == b'\n') ≡ false) val
    → All (λ c. (c == 0) ≡ false) val
    → IsSetting (codes "PORT", val)
port-IsSetting val h z = record {
  named = refl;
  name_line = (refl, (refl, (refl, (refl, tt))));
  name_equals = (refl, (refl, (refl, (refl, tt))));
  name_zero = (refl, (refl, (refl, (refl, tt))));
  val_line = h;
  val_zero = z;
}

settings-IsSetting : All IsSetting settings
settings-IsSetting = (
  port-IsSetting (codes "1") (refl, tt) (refl, tt),
  (port-IsSetting (codes "80") (refl, (refl, tt)) (refl, (refl, tt)), tt),
)

get_env-init_env_example :
    (env' : Environ) × (init_env (some (file_of settings)) [] ≡ ret env')
    × ((key def : Text)
        → get_env key def env'
          ≡ setting_or def (last_setting (c_string key) settings (getenv (c_string key) [])))
get_env-init_env_example = get_env-init_env settings [] settings-IsSetting

-- Redis refuses the second connection, Postgres none, and asio can listen.
abbrev pg_connect : Text → ℕ → Attempt
pg_connect info i = connected i

abbrev redis_connect : Text → ℤ → ℕ → Attempt
redis_connect host port i = if i == 1 then failed 9 (codes "refused") else connected i

abbrev listen : Text → Text → Option Text
listen host port = none

abbrev eight : Environ
eight = (codes "POOL", to_string 8) ∷ []

uint_of-to_string_example :
    uint_of (codes "POOL") (codes "1") eight ≡ (if ltb 8 (2 ^ 64) then 8 % 2 ^ 32 else 2 ^ 32 - 1)
unfolding get_env getenv text_eq to_string c_string
uint_of-to_string_example = uint_of-to_string (codes "POOL") (codes "1") eight 8 refl
