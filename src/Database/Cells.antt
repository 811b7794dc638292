-- ===== src/Database/Cells.antt =====
-- src/db/core/pg.cpp: the cells of a result by their type, and `PostgresClient::query`, which nothing
-- calls.
use clean_architecture_cpp.Base.{
  ℕ, zero, suc, ◌≡◌, ◌≢◌, refl, Bool, false, Option, none, some, List, [], ◌∷◌, Text, codes,
  is_empty, ◌⊎◌, inl, inr, invalid_argument, length, ltb, ◌^◌, Throws, ret, throw, null_pointer,
  ◌>>=◌,
}
use clean_architecture_cpp.Base.Integer.{
  ℤ, pos, negsuc, stoi, stoll, print, InRange, read_signed, read_signed-print,
}
use clean_architecture_cpp.Entities.Log.{Expected, value}
use clean_architecture_cpp.Store.Redis.{c_string}
use clean_architecture_cpp.Store.Redis.Laws.{c_string_of_Lacks}
use clean_architecture_cpp.Store.Redis.Typed.{print-Lacks}
use clean_architecture_cpp.Database.{PostgresResult, cell_of, checked}

-- `get_count`
abbrev pub get_count : PostgresResult → ℕ
get_count r = length r.rows

abbrev pub row_of : List (List Text) → ℕ → List Text
row_of [] row = []
row_of (r ∷ rows) zero = r
row_of (r ∷ rows) (suc row) = row_of rows row

-- `PQgetvalue`: `none` is the null pointer for a cell that is not there.
unfoldable pub get_text : PostgresResult → ℕ → ℕ → Option Text
get_text r row col = cell_of (row_of r.rows row) col

-- What a conversion makes of the text of a cell, as a `std::string` of it.
unfoldable pub get_cell_of : {A : Type 0} → (Text → Throws A) → PostgresResult → ℕ → ℕ → Throws A
unfolding get_text
get_cell_of read r row col = elim (get_text r row col) [
  | none ↦ throw null_pointer
  | some s ↦ read (c_string s)
]

-- `get_cell<int>`, `get_cell<long long>` and `get_cell<bool>`
unfoldable pub get_cell_int : PostgresResult → ℕ → ℕ → Throws ℤ
unfolding get_cell_of
get_cell_int r row col = get_cell_of stoi r row col

unfoldable pub get_cell_long : PostgresResult → ℕ → ℕ → Throws ℤ
unfolding get_cell_of
get_cell_long r row col = get_cell_of stoll r row col

abbrev pub is_true_number : ℤ → Bool
is_true_number (pos n) = ltb 0 n
is_true_number (negsuc n) = false

unfoldable pub get_cell_bool : PostgresResult → ℕ → ℕ → Throws Bool
unfolding get_cell_of
get_cell_bool r row col = get_cell_of stoi r row col >>= λ z. ret (is_true_number z)

-- `get_cell<float>` and `get_cell<double>`, over what `std::stof` and `std::stod` read.
unfoldable pub get_cell_floating :
    {F : Type 0} → (Text → Throws F) → PostgresResult → ℕ → ℕ → Throws F
unfolding get_cell_of
get_cell_floating read r row col = get_cell_of read r row col

-- `PostgresClient::query` on a connection: the result, whatever it says.
unfoldable pub client_query :
    {W : Type 0}
    → (ℕ → Text → List Text → W → PostgresResult × W)
    → ℕ
    → Text
    → List Text
    → W
    → Expected PostgresResult × W
client_query exec_prepared client statement values w =
    let (result, w') = exec_prepared client statement values w in (value result, w')

-- A cell that holds the decimal text of a number is read as that number: by `get_cell<int>` if it has
-- 32 bits, by `get_cell<long long>` if it has 64, and `get_cell<bool>` tells whether it is positive.
pub get_cell_int-print :
    (r : PostgresResult) (row col : ℕ) (z : ℤ)
    → get_text r row col ≡ some (print z)
    → (InRange (2 ^ 31) z
        → (get_cell_int r row col ≡ ret z) × (get_cell_bool r row col ≡ ret (is_true_number z)))
      × (InRange (2 ^ 63) z → get_cell_long r row col ≡ ret z)
unfolding get_cell_int get_cell_bool get_cell_long get_cell_of stoi stoll
get_cell_int-print r row col z e =
    let text = c_string_of_Lacks (print z) (print-Lacks z) in
    (
      λ h.
          let read = read_signed-print (2 ^ 31) z h in
          (
            rw (get_cell_int, get_cell_of, e, text, read) refl,
            rw (get_cell_bool, get_cell_of, e, text, read) refl,
          ),
      λ h. rw (get_cell_long, get_cell_of, e, text, read_signed-print (2 ^ 63) z h) refl,
    )

-- The text that the server sends of a boolean, t or f, is no number: `get_cell<bool>` throws.
pub get_cell_bool-throws :
    (r : PostgresResult) (row col : ℕ)
    → (get_text r row col ≡ some (codes "t")) ⊎ (get_text r row col ≡ some (codes "f"))
    → get_cell_bool r row col ≡ throw invalid_argument
unfolding get_cell_bool get_cell_of stoi read_signed c_string
get_cell_bool-throws r row col (inl e) = rw (get_cell_bool, get_cell_of, e) refl
get_cell_bool-throws r row col (inr e) = rw (get_cell_bool, get_cell_of, e) refl

-- `PostgresClient::query` gives a result for a result, also where `Postgres::query` would tell the
-- error that it holds.
pub client_query-checked :
    {W : Type 0} (exec_prepared : ℕ → Text → List Text → W → PostgresResult × W) (client : ℕ)
    (statement : Text) (values : List Text) (w w' : W) (r : PostgresResult)
    → exec_prepared client statement values w ≡ (r, w')
    → is_empty r.message ≡ false
    → (client_query exec_prepared client statement values w ≡ (value r, w'))
      × ((s : PostgresResult) → checked r ≢ value s)
unfolding client_query checked
client_query-checked exec_prepared client statement values w w' r e m =
    (rw e refl, λ s. rw m (λ f. cc))
