-- ===== src/Settings/Restart.antt =====
-- The keys of the program over its starts: `cmd/simpleci/main.go` with `internal/security/encryption.go`
-- and `internal/settings/settings.go`.
use simple_ci.Base.{
  ◌≡◌, refl, sym, ap, ◌∙◌, ℕ, suc, String, ◌is◌, Option, none, some, List, [], ◌∷◌, true, false,
  ◌⊎◌, inl, inr,
}
use simple_ci.Base.Errors.{Error, ok, panic}
use simple_ci.Base.Exec.{pure, lift, ◌>>=◌, ◌>>◌, >>=-eq-ok, lift_ok}
use simple_ci.Security.{Gcm, to_bytes, encrypt_aes}
use simple_ci.Store.Driver.{statement}
use simple_ci.Store.Tables.Fleet as Store
use simple_ci.Users.{Db}
use simple_ci.Fleet.{create_credential}
use simple_ci.Settings.{Env, append, lookup_env, get_env_or_default, read_dotenv}
use simple_ci.Settings.Keys.{
  charset, string_with_charset, entry_of, write_to_dotenv, Keys, known_or_new, new_key, new_keys,
  load_keys,
}
use simple_ci.Settings.Drawn.{string_with_charset-IsKey}
use simple_ci.Settings.Lines.{
  IsKey, is_ended, IsReadable, hash_key-IsReadable, block_key-IsReadable, read_dotenv-append,
  is_ended-append, entry-is_ended, entry-some,
}

-- What comes of a variable that is looked up or made: in the file there is its entry afterwards.
abbrev Made : String → Option String → String → String → String → Type 0
Made name found s text after =
    (found ≡ some s) × (after ≡ text)
    ⊎ (found ≡ none) × IsKey s × (after ≡ append text (entry_of name s))

written_key :
    (refused : Option Error) (name key s text after : String)
    → (write_to_dotenv refused name key >> pure key) text ≡ (ok s, after)
    → (s ≡ key) × (after ≡ append text (entry_of name s))
unfolding write_to_dotenv
written_key none name key s text after h =
    let same : s ≡ key = cc (ap (λ q. q.0) h) in
    (same, sym (ap (λ q. q.1) h) ∙ ap (λ k. append text (entry_of name k)) (sym same))
written_key (some e) name key s text after h = absurd (cc (ap (λ q. q.0) h))

module _ (refused : Option Error) where
  known_or_new-Made :
      (name : String) (n : ℕ) (draws : ℕ → ℕ) (o : Option String) (text after s : String)
      → known_or_new refused name (suc n) draws o text ≡ (ok s, after)
      → Made name o s text after
  known_or_new-Made name n draws (some value) text after s h =
      inl (ap some (cc (ap (λ q. q.0) h)), sym (ap (λ q. q.1) h))
  known_or_new-Made name n draws none text after s h =
      let (key, drawn, h1) = lift_ok (string_with_charset (suc n) draws charset) _ text after h in
      let (same, written) = written_key refused name key s text after h1 in
      inr (refl, rw same (string_with_charset-IsKey n draws key drawn), written)

  -- Each of the two keys of a start that comes to its end.
  new_keys-Made :
      (hash_draws block_draws : ℕ → ℕ) (env : Env) (text after hk bk : String)
      → new_keys refused hash_draws block_draws env text ≡ (ok (hk, bk), after)
      → (between : String) × Made "SIMPLECI_HASH_KEY"
          (lookup_env "SIMPLECI_HASH_KEY" env)
          hk
          text
          between
        × Made "SIMPLECI_BLOCK_KEY" (lookup_env "SIMPLECI_BLOCK_KEY" env) bk between after
  unfolding new_keys new_key
  new_keys-Made hash_draws block_draws env text after hk bk h =
      let (a, between, first, h1) =
        >>=-eq-ok
          (known_or_new refused "SIMPLECI_HASH_KEY" 32 hash_draws
            (lookup_env "SIMPLECI_HASH_KEY" env))
          _ text h in
      let (b, u, second, last) =
        >>=-eq-ok
          (known_or_new refused "SIMPLECI_BLOCK_KEY" 24 block_draws
            (lookup_env "SIMPLECI_BLOCK_KEY" env))
          _ between h1 in
      let pair : ◌≡◌ {A = String × String} (a, b) (hk, bk) = cc (ap (λ q. q.0) last) in
      let end : u ≡ after = ap (λ q. q.1) last in
      (
        between,
        rw (ap (λ q. q.0) (sym pair))
            (known_or_new-Made "SIMPLECI_HASH_KEY" 31 hash_draws _ text between a first),
        rw (ap (λ q. q.1) (sym pair), sym end)
            (known_or_new-Made "SIMPLECI_BLOCK_KEY" 23 block_draws _ between u b second),
      )

-- What the next start reads for a variable, and for any other one.
Kept : String → Env → String → String → String → Type 0
Kept name outer s text after =
    (is_ended after ≡ true)
    × (lookup_env name (read_dotenv after outer) ≡ some s)
    × ((other : String)
        → (name is other) ≡ false
        → lookup_env other (read_dotenv after outer) ≡ lookup_env other (read_dotenv text outer))

Made-Kept :
    (name : String) (outer : Env) (s text after : String)
    → IsReadable name
    → (name is name) ≡ true
    → is_ended text ≡ true
    → Made name (lookup_env name (read_dotenv text outer)) s text after
    → Kept name outer s text after
unfolding Kept lookup_env
Made-Kept name outer s text after readable same ended (inl (found, unchanged)) =
    rw unchanged (ended, found, λ other h. refl)
Made-Kept name outer s text after readable same ended (inr (missing, key, written)) =
    let read : read_dotenv after outer ≡ (name, s) ∷ read_dotenv text outer =
      ap (λ t. read_dotenv t outer) written
      ∙ read_dotenv-append name s text outer readable key ended in
    (
      ap is_ended written
          ∙ is_ended-append text (entry_of name s) (entry-some name s) (entry-is_ended name s),
      rw (read, same) refl,
      λ other h. rw (read, h) refl,
    )

load_known :
    (refused : Option Error) (hash_draws block_draws : ℕ → ℕ) (outer : Env) (text hk bk : String)
    → lookup_env "SIMPLECI_HASH_KEY" (read_dotenv text outer) ≡ some hk
    → lookup_env "SIMPLECI_BLOCK_KEY" (read_dotenv text outer) ≡ some bk
    → load_keys refused hash_draws block_draws outer text ≡ (
      ok (record { hash_key = to_bytes hk; block_key = to_bytes bk; aes_key = to_bytes hk }),
      text,
    )
unfolding load_keys new_keys new_key get_env_or_default
load_known refused hash_draws block_draws outer text hk bk h k =
    rw (h, k) (rw (get_env_or_default, h) refl)

-- The keys of cookies and of the encryption outlive the program: if a start over an `.env` whose lines
-- are all ended comes to its end, the next start in the same environment leaves the file as it is and
-- has the same keys, its encryption too has the hash key, whatever is drawn and even if the file can no
-- longer be written.
pub keys_survive_restart :
    (refused again : Option Error) (hash_draws block_draws hash_draws' block_draws' : ℕ → ℕ)
    (outer : Env) (text after : String) (k : Keys)
    → is_ended text ≡ true
    → load_keys refused hash_draws block_draws outer text ≡ (ok k, after)
    → load_keys again hash_draws' block_draws' outer after
      ≡ (ok (record k { aes_key = k.hash_key }), after)
unfolding load_keys Kept
keys_survive_restart refused again hash_draws block_draws hash_draws' block_draws' outer text after
      k ended h =
    let ((hk, bk), u, made, last) =
      >>=-eq-ok (new_keys refused hash_draws block_draws (read_dotenv text outer)) _ text h in
    let (between, hash, block) =
      new_keys-Made refused hash_draws block_draws (read_dotenv text outer) text u hk bk made in
    let hash_kept =
      Made-Kept "SIMPLECI_HASH_KEY" outer hk text between hash_key-IsReadable refl ended hash in
    let known = hash_kept.2 "SIMPLECI_BLOCK_KEY" refl in
    let block_kept =
      Made-Kept "SIMPLECI_BLOCK_KEY" outer bk between u block_key-IsReadable refl hash_kept.0
        (rw known block) in
    let keys : record {
      hash_key = to_bytes hk;
      block_key = to_bytes bk;
      aes_key = to_bytes (get_env_or_default (read_dotenv text outer) "SIMPLECI_HASH_KEY" "");
    }
        ≡ k =
      cc (ap (λ q. q.0) last) in
    let file : u ≡ after = ap (λ q. q.1) last in
    rw (← file, ← keys)
      (load_known again hash_draws' block_draws' outer u hk bk
        (block_kept.2 "SIMPLECI_HASH_KEY" refl ∙ hash_kept.1) block_kept.1)

-- In a start that has no hash key yet, the encryption has the empty key, since the one that is drawn
-- is only written to the file: if AES takes no empty key, then creating a credential ends the program.
pub first_start_cannot_encrypt :
    (refused : Option Error) (hash_draws block_draws : ℕ → ℕ) (outer : Env) (text after : String)
    (k : Keys) (gcm : Gcm) (e : Error) (nonce : List ℕ) (username description private_key : String)
    (db : Db)
    → lookup_env "SIMPLECI_HASH_KEY" (read_dotenv text outer) ≡ none
    → load_keys refused hash_draws block_draws outer text ≡ (ok k, after)
    → gcm.new_cipher [] ≡ some e
    → create_credential gcm k.aes_key nonce username description private_key db ≡ (panic, db)
unfolding load_keys create_credential encrypt_aes get_env_or_default to_bytes
first_start_cannot_encrypt refused hash_draws block_draws outer text after k gcm e nonce username
      description private_key db missing h no_cipher =
    let (keys, u, made, last) =
      >>=-eq-ok (new_keys refused hash_draws block_draws (read_dotenv text outer)) _ text h in
    let aes : List ℕ =
      to_bytes (get_env_or_default (read_dotenv text outer) "SIMPLECI_HASH_KEY" "") in
    let same : record { hash_key = to_bytes keys.0; block_key = to_bytes keys.1; aes_key = aes }
        ≡ k =
      cc (ap (λ q. q.0) last) in
    let empty : k.aes_key ≡ [] =
      ap (λ (x : Keys). x.aes_key) (sym same) ∙ rw (get_env_or_default, missing) refl in
    let refused_text : encrypt_aes gcm [] nonce private_key ≡ panic =
      rw (encrypt_aes, no_cipher) refl in
    ap (λ r. (lift r >>= λ hash. statement (Store.create_credential username description hash)) db)
      (ap (λ key. encrypt_aes gcm key nonce private_key) empty ∙ refused_text)
