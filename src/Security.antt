-- ===== src/Security.antt =====
-- `internal/security/encryption.go`: AES-GCM of the standard library's crypto packages is a `Gcm`;
-- the hex text around it, the slices and `log.Fatal` are the code's.
pub mod Hex
pub mod Laws
use Prim.Native.Char.{Char, code}
use simple_ci.Base.{
  ◌≡◌, refl, ℕ, ◌+◌, ◌/◌, ◌%◌, ltb, String, Option, none, some, List, [], ◌∷◌, ◌++◌, length, take,
  drop, if◌then◌else◌,
}
use simple_ci.Base.Errors.{Error, Result, ok, err, panic, ◌>>=◌}
use simple_ci.Security.Hex.{encode, decode}

-- `aes.NewCipher`, `NonceSize`, `Seal` and `Open`; `NewGCM` takes every AES cipher.
pub record Gcm : Type 0 where
  pub new_cipher : List ℕ → Option Error
  pub nonce_size : ℕ
  pub seal : List ℕ → List ℕ → List ℕ → List ℕ
  pub unseal : List ℕ → List ℕ → List ℕ → Result (List ℕ)

-- The bytes of a code point in UTF-8.
utf8_bytes : ℕ → List ℕ
utf8_bytes n =
    if ltb n 128
    then n ∷ []
    else if ltb n 2048
    then (192 + n / 64) ∷ (128 + n % 64) ∷ []
    else if ltb n 65536
    then (224 + n / 4096) ∷ (128 + n / 64 % 64) ∷ (128 + n % 64) ∷ []
    else (240 + n / 262144) ∷ (128 + n / 4096 % 64) ∷ (128 + n / 64 % 64) ∷ (128 + n % 64) ∷ []

-- `[]byte(text)`
unfoldable pub to_bytes : String → List ℕ
unfolding utf8_bytes
to_bytes String.[] = []
to_bytes (String.◌∷◌ c s) = utf8_bytes (code c) ++ to_bytes s

module _ (gcm : Gcm) where
  open gcm use {new_cipher, nonce_size, seal, unseal}

  -- `nonce` is the random one; `log.Fatal` ends the program.
  unfoldable pub encrypt_aes : List ℕ → List ℕ → String → Result String
  encrypt_aes key nonce text = elim (new_cipher key) [
    | some e ↦ panic
    | none ↦ ok (encode (nonce ++ seal key nonce (to_bytes text)))
  ]

  -- That the text is too short for a nonce is logged, and then the slice panics.
  open_sealed : List ℕ → List ℕ → Result (List ℕ)
  open_sealed key sealed =
      if ltb (length sealed) nonce_size
      then panic
      else unseal key (take nonce_size sealed) (drop nonce_size sealed)

  unfoldable pub decrypt_aes : List ℕ → String → Result (List ℕ)
  unfolding open_sealed
  decrypt_aes key encrypted = do
    sealed ← decode encrypted
    elim (new_cipher key) [ some e ↦ err e | none ↦ open_sealed key sealed ]
