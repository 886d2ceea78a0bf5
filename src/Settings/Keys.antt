-- ===== src/Settings/Keys.antt =====
-- The keys of `internal/security/encryption.go` (`NewKeys`, `GenerateRandomKey`, `writeToDotenv`), and of
-- `cmd/simpleci/main.go` how the program comes to them. `log.Fatal` ends the program like a panic.
use simple_ci.Base.{ℕ, zero, suc, ◌-◌, ◌==◌, String, Option, none, some, List, if◌then◌else◌}
use simple_ci.Base.Errors.{Error, Result, ok, err, panic}
use simple_ci.Base.Exec.{Exec, pure, lift, modify, ◌>>=◌, ◌>>◌}
use simple_ci.Security.{to_bytes}
use simple_ci.Settings.{Env, append, lookup_env, get_env_or_default, read_dotenv}

abbrev pub charset : String
charset = "qwertyuiopasdfghjklzxcvbnmQWERTYUIOPASDFGHJKLZXCVBNM1234567890-_|!/"

-- An index outside the text panics.
unfoldable pub at : ℕ → String → Result String
at n String.[] = panic
at n (String.◌∷◌ c s) = let rest = at (n - 1) s in if n == 0 then ok (String.◌∷◌ c "") else rest

abbrev pub join : Result String → Result String → Result String
join (ok s) (ok t) = ok (append s t)
join (err e) _ = err e
join (ok s) (err e) = err e
join _ _ = panic

-- `draws` are the random numbers.
unfoldable pub string_with_charset : ℕ → (ℕ → ℕ) → String → Result String
string_with_charset zero draws chars = ok ""
string_with_charset (suc n) draws chars =
    join (at (draws 0) chars) (string_with_charset n (λ i. draws (suc i)) chars)

abbrev pub generate_random_key : ℕ → (ℕ → ℕ) → Result String
generate_random_key length draws = string_with_charset length draws charset

abbrev pub entry_of : String → String → String
entry_of name value = append name (append "=" (append value "\n"))

-- The state is the text of `.env`; `refused` is the error of opening it or of writing to it.
unfoldable pub write_to_dotenv : Option Error → String → String → Exec String (Unit {0})
write_to_dotenv none name value = modify λ text. append text (entry_of name value)
write_to_dotenv (some e) name value = lift panic

-- The keys of the cookies, and the one of the encryption.
pub record Keys : Type 0 where
  pub hash_key : List ℕ
  pub block_key : List ℕ
  pub aes_key : List ℕ

module _ (refused : Option Error) where
  -- What `NewKeys` does with the answer of `os.LookupEnv`, for each of its two keys.
  abbrev pub known_or_new : String → ℕ → (ℕ → ℕ) → Option String → Exec String String
  known_or_new name length draws (some value) = pure value
  known_or_new name length draws none = do
    key ← lift (generate_random_key length draws)
    write_to_dotenv refused name key
    pure key

  unfoldable pub new_key : String → ℕ → (ℕ → ℕ) → Env → Exec String String
  new_key name length draws env = known_or_new name length draws (lookup_env name env)

  unfoldable pub new_keys : (ℕ → ℕ) → (ℕ → ℕ) → Env → Exec String (String × String)
  new_keys hash_draws block_draws env = do
    hash_key ← new_key "SIMPLECI_HASH_KEY" 32 hash_draws env
    block_key ← new_key "SIMPLECI_BLOCK_KEY" 24 block_draws env
    pure (hash_key, block_key)

  -- The start of `main`: `.env` is read, and then the keys are looked up; `os.Getenv` of a variable
  -- that is not set is empty.
  unfoldable pub load_keys : (ℕ → ℕ) → (ℕ → ℕ) → Env → Exec String Keys
  load_keys hash_draws block_draws outer text =
      let env = read_dotenv text outer in
      (new_keys hash_draws block_draws env >>= λ (hash_key, block_key). pure (record {
        hash_key = to_bytes hash_key;
        block_key = to_bytes block_key;
        aes_key = to_bytes (get_env_or_default env "SIMPLECI_HASH_KEY" "");
      }))
        text
