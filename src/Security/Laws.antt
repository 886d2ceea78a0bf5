-- ===== src/Security/Laws.antt =====
-- What is encrypted by `internal/security/encryption.go` can be decrypted again.
use simple_ci.Base.{
  ◌≡◌, refl, ap, ◌∙◌, ℕ, ◌<◌, ltb, String, List, [], ◌∷◌, ◌++◌, All, length, length-append, take,
  drop, false, arith, Option-cases, inl, inr,
}
use simple_ci.Base.Errors.{ok}
use simple_ci.Security.Hex.{encode, decode-encode}
use simple_ci.Security.{Gcm, to_bytes, encrypt_aes, decrypt_aes, open_sealed}

take-append : (xs ys : List ℕ) → take (length xs) (xs ++ ys) ≡ xs
take-append [] ys = refl
take-append (x ∷ xs) ys = ap (◌∷◌ x) (take-append xs ys)

drop-append : (xs ys : List ℕ) → drop (length xs) (xs ++ ys) ≡ ys
drop-append [] ys = refl
drop-append (x ∷ xs) ys = drop-append xs ys

module _ (gcm : Gcm) where
  open gcm use {new_cipher, nonce_size, seal, unseal}

  open_sealed-append :
      (key nonce sealed : List ℕ)
      → length nonce ≡ nonce_size
      → open_sealed gcm key (nonce ++ sealed) ≡ unseal key nonce sealed
  unfolding open_sealed
  open_sealed-append key nonce sealed size =
      let long : ltb (length (nonce ++ sealed)) nonce_size ≡ false =
        ground (arith, length-append nonce sealed, size) in
      rw (long, ← size, take-append nonce sealed, drop-append nonce sealed) refl

  -- A text that has been encrypted is decrypted to its bytes with the same key, if the cipher opens
  -- what it has sealed, its output is bytes and the nonce has the cipher's length.
  pub decrypt_aes-encrypt_aes :
      (key nonce : List ℕ) (text hash : String)
      → length nonce ≡ nonce_size
      → All (λ b. b < 256) (nonce ++ seal key nonce (to_bytes text))
      → unseal key nonce (seal key nonce (to_bytes text)) ≡ ok (to_bytes text)
      → encrypt_aes gcm key nonce text ≡ ok hash
      → decrypt_aes gcm key hash ≡ ok (to_bytes text)
  unfolding encrypt_aes decrypt_aes
  decrypt_aes-encrypt_aes key nonce text hash size bytes opens made =
      elim (Option-cases (new_cipher key)) [
        | inl fits ↦
            let sealed = nonce ++ seal key nonce (to_bytes text) in
            let same : encode sealed ≡ hash = ground (arith, made, fits) in
            rw (← same, decode-encode sealed bytes, fits)
              (open_sealed-append key nonce (seal key nonce (to_bytes text)) size ∙ opens)
        | inr (e, refused) ↦ absurd (ground (arith, made, refused))
      ]
