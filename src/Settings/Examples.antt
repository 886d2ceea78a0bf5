-- ===== src/Settings/Examples.antt =====
-- Starts of the program over an `.env` that has a port and no keys, and what `ReadDotenv` makes of lines.
use simple_ci.Base.{◌≡◌, refl, ℕ, String, none, some, [], ◌∷◌}
use simple_ci.Base.Errors.{message, ok, panic}
use simple_ci.Security.{Gcm, to_bytes}
use simple_ci.Users.Sessions.{willing}
use simple_ci.Fleet.Examples.{gcm, empty}
use simple_ci.Fleet.{create_credential}
use simple_ci.Settings.{
  lookup_env, read_dotenv, scan, read_line, drop_cr, matches, rest_matches, set_env, trim_right,
  trim_left, before_equals, after_equals, get_env_or_default, new_settings, base_url,
}
use simple_ci.Settings.Keys.{
  Keys, new_keys, new_key, write_to_dotenv, string_with_charset, at, load_keys,
}
use simple_ci.Settings.Lines.{is_ended}
use simple_ci.Settings.Restart.{keys_survive_restart, first_start_cannot_encrypt}

-- A value with an equals sign loses what is behind it.
read_example :
    read_dotenv "# keys\nSIMPLECI_PORT = 80\n SIMPLECI_DOMAIN=\" ci.org\"\nTOKEN=a=b\r\n9A=x\nA=y"
      []
    ≡ ("TOKEN", "a") ∷ ("SIMPLECI_DOMAIN", " ci.org") ∷ []
unfolding read_dotenv scan read_line drop_cr matches rest_matches set_env trim_right trim_left
    before_equals after_equals
read_example = refl

settings_example : base_url (new_settings (("SIMPLECI_PORT", "80") ∷ [])) ≡ "http://localhost:80"
unfolding base_url new_settings get_env_or_default lookup_env
settings_example = refl

abbrev zeros : ℕ → ℕ
zeros n = 0

abbrev made : Keys
made = record {
  hash_key = to_bytes "qqqqqqqqqqqqqqqqqqqqqqqqqqqqqqqq";
  block_key = to_bytes "qqqqqqqqqqqqqqqqqqqqqqqq";
  aes_key = [];
}

abbrev before : String
before = "SIMPLECI_PORT=:80\n"

abbrev after : String
after =
    "SIMPLECI_PORT=:80\nSIMPLECI_HASH_KEY=qqqqqqqqqqqqqqqqqqqqqqqqqqqqqqqq\nSIMPLECI_BLOCK_KEY=qqqqqqqqqqqqqqqqqqqqqqqq\n"

first_start : load_keys none zeros zeros [] before ≡ (ok made, after)
unfolding load_keys new_keys new_key write_to_dotenv string_with_charset at get_env_or_default
    lookup_env to_bytes read_dotenv scan read_line drop_cr matches rest_matches set_env trim_right
    trim_left before_equals after_equals
first_start = refl

keys_survive_restart_example :
    load_keys (some (message "read-only")) zeros zeros [] after
    ≡ (ok (record made { aes_key = made.hash_key }), after)
unfolding is_ended
keys_survive_restart_example =
    keys_survive_restart none (some (message "read-only")) zeros zeros zeros zeros [] before after
      made refl first_start

-- An AES that takes every key but the empty one.
abbrev strict : Gcm
strict = record gcm {
  new_cipher =
      λ key. elim key [ [] ↦ some (message "crypto/aes: invalid key size 0") | _ ∷ _ ↦ none ];
}

first_start_cannot_encrypt_example :
    create_credential strict made.aes_key [] "git" "" "k" (willing empty) ≡ (panic, willing empty)
unfolding lookup_env read_dotenv scan read_line drop_cr matches rest_matches set_env trim_right
    trim_left before_equals after_equals
first_start_cannot_encrypt_example =
    first_start_cannot_encrypt none zeros zeros [] before after made strict
      (message "crypto/aes: invalid key size 0") [] "git" "" "k" (willing empty) refl first_start
      refl
