-- ===== src/Security/Hex.antt =====
-- `hex.EncodeToString` and `hex.DecodeString`, as `internal/security/encryption.go` uses them.
use Prim.Native.Char.{Char, code}
use simple_ci.Base.{
  ◌≡◌, refl, sym, ap, ◌∙◌, inl, inr, Bool-cases, ℕ, zero, suc, ◌+◌, ◌-◌, ◌*◌, ◌/◌, ◌%◌, ◌<◌, leb,
  ◌==◌, String, Option, none, some, List, [], ◌∷◌, All, Bool, true, false, ◌&&◌, if◌then◌else◌,
  arith,
}
use simple_ci.Base.Errors.{message, Result, ok, err, ◌>>=◌}

-- The character of a hexadecimal digit.
digit : ℕ → Char
digit n =
    if n == 0
    then "0"
    else if n == 1
    then "1"
    else if n == 2
    then "2"
    else if n == 3
    then "3"
    else if n == 4
    then "4"
    else if n == 5
    then "5"
    else if n == 6
    then "6"
    else if n == 7
    then "7"
    else if n == 8
    then "8"
    else if n == 9
    then "9"
    else if n == 10
    then "a"
    else if n == 11
    then "b"
    else if n == 12
    then "c"
    else if n == 13
    then "d"
    else if n == 14
    then "e"
    else "f"

-- What a digit stands for, in either case.
value : ℕ → Option ℕ
value c =
    if leb b'0' c && leb c b'9'
    then some (c - b'0')
    else if leb b'a' c && leb c b'f'
    then some (c - b'a' + 10)
    else if leb b'A' c && leb c b'F'
    then some (c - b'A' + 10)
    else none

unfoldable pub encode : List ℕ → String
unfolding digit
encode [] = ""
encode (b ∷ bs) = String.◌∷◌ (digit (b / 16)) (String.◌∷◌ (digit (b % 16)) (encode bs))

byte : Option ℕ → Option ℕ → Result ℕ
byte (some high) (some low) = ok (high * 16 + low)
byte _ _ = err (message "encoding/hex: invalid byte")

-- An odd text ends with an error of its own, unless its last character is no digit.
odd_end : Option ℕ → Result (List ℕ)
odd_end none = err (message "encoding/hex: invalid byte")
odd_end (some n) = err (message "encoding/hex: odd length hex string")

unfoldable pub decode : String → Result (List ℕ)
unfolding value byte odd_end
decode String.[] = ok []
decode (String.◌∷◌ c String.[]) = odd_end (value (code c))
decode (String.◌∷◌ c (String.◌∷◌ d s)) =
    let rest = decode s in
    byte (value (code c)) (value (code d)) >>= λ b. rest >>= λ bs. ok (b ∷ bs)

same_value : ℕ → Option ℕ → Bool
same_value n none = false
same_value n (some m) = n == m

-- Whether every digit under a number has its own value.
digits_fit : ℕ → Bool
unfolding same_value
digits_fit zero = true
digits_fit (suc k) =
    let fewer = digits_fit k in if same_value k (value (code (digit k))) then fewer else false

sixteen_fit : digits_fit 16 ≡ true
unfolding digits_fit value digit
sixteen_fit = refl

digit_fits :
    (count n : ℕ)
    → n < count
    → digits_fit count ≡ true
    → same_value n (value (code (digit n))) ≡ true
unfolding digits_fit
digit_fits zero n few fit = absurd (omega arith)
digit_fits (suc k) n few fit = elim (Bool-cases (n == k)) [
  | inl last ↦
      let same : k ≡ n = ground (arith, last) in
      let here : same_value k (value (code (digit k))) ≡ true = ground (arith, fit) in
      ap (λ m. same_value m (value (code (digit m)))) (sym same) ∙ here
  | inr other ↦ digit_fits k n (ground (arith, other, few)) (ground (arith, fit))
]

same_value-eq : (n : ℕ) (o : Option ℕ) → same_value n o ≡ true → o ≡ some n
unfolding same_value
same_value-eq n none h = absurd (cc h)
same_value-eq n (some m) h = ground (arith, h)

value-digit : (n : ℕ) → n < 16 → value (code (digit n)) ≡ some n
value-digit n h = same_value-eq n _ (digit_fits 16 n h sixteen_fit)

-- Bytes come back from their text.
pub decode-encode : (bs : List ℕ) → All (λ b. b < 256) bs → decode (encode bs) ≡ ok bs
unfolding encode decode
decode-encode [] h = refl
decode-encode (b ∷ bs) h =
    rw
      (
        value-digit (b / 16) (omega (arith, h.0)),
        value-digit (b % 16) (omega arith),
        decode-encode bs h.1,
      )
      (ap (λ (x : ℕ). ok (x ∷ bs)) (omega arith))
