-- ===== src/Utils/Strings.antt =====
-- src/utils/string.cpp. Characters are bytes, in the C locale.
pub mod Trim
use clean_architecture_cpp.Base.{
  ℕ, ◌+◌, Bool, true, false, ◌&&◌, leb, ◌==◌, if◌then◌else◌, List, [], ◌∷◌, Text, codes, Throws,
  ret, throw,
}
use clean_architecture_cpp.Base.Integer.{ℤ, is_space, stoi, stoll}
use clean_architecture_cpp.Entities.Log.{Log, empty_log, Expected, value, unexpected}
use mathlib.Core.List.{reverse}

-- A conversion that throws becomes an error with a message.
abbrev caught {ℓ} : {A : Type ℓ} → Throws A → Text → Expected A
caught (ret z) msg = value z
caught (throw e) msg = unexpected (record empty_log { msg = msg })

unfoldable pub to_int32 : Text → Expected ℤ
to_int32 s = caught (stoi s) (codes "Could not parse to int32")

unfoldable pub to_int64 : Text → Expected ℤ
to_int64 s = caught (stoll s) (codes "Could not parse to int64")

-- Over what `std::stof` reads, and over what `std::stod` reads.
unfoldable pub to_float {ℓ} : {F : Type ℓ} → (Text → Throws F) → Text → Expected F
to_float stof s = caught (stof s) (codes "Could not parse to float")

unfoldable pub to_double {ℓ} : {F : Type ℓ} → (Text → Throws F) → Text → Expected F
to_double stod s = caught (stod s) (codes "Could not parse to double")

unfoldable pub tolower : ℕ → ℕ
tolower c = if leb b'A' c && leb c b'Z' then c + 32 else c

-- The first text is lowered, the second is compared as it is.
unfoldable pub iequals : Text → Text → Bool
unfolding tolower
iequals [] [] = true
iequals (c1 ∷ s1) (c2 ∷ s2) = tolower c1 == c2 && iequals s1 s2
iequals _ _ = false

unfoldable pub ltrim : Text → Text
ltrim [] = []
ltrim (c ∷ s) = if is_space c then ltrim s else c ∷ s

-- The scan from the back stops at the last byte that is no space.
unfoldable pub rtrim : Text → Text
unfolding ltrim
rtrim s = reverse (ltrim (reverse s))

unfoldable pub trim : Text → Text
unfolding rtrim
trim s = rtrim (ltrim s)
