-- ===== src/Settings/Drawn.antt =====
-- The keys that `GenerateRandomKey` of `internal/security/encryption.go` draws.
use simple_ci.Base.{◌≡◌, refl, ℕ, zero, suc, ◌-◌, ◌==◌, String, Bool, true, false, if◌then◌else◌}
use simple_ci.Base.Errors.{Result, ok, err, panic}
use simple_ci.Settings.{append, is_empty}
use simple_ci.Settings.Keys.{charset, at, join, string_with_charset}
use simple_ci.Settings.Lines.{is_plain, all_chars, IsKey, head_plain, tail_plain}

-- Every draw from the characters of a key is plain.
at-plain :
    (chars : String) (n : ℕ) (s : String)
    → all_chars is_plain chars ≡ true
    → at n chars ≡ ok s
    → IsKey s
unfolding at all_chars
at-plain String.[] n s h k = absurd (cc k)
at-plain (String.◌∷◌ c chars) n s h k =
    go (n == 0) (λ e. at-plain chars (n - 1) s (tail_plain c chars h) e) k
  where
    go :
        (b : Bool)
        → (at (n - 1) chars ≡ ok s → IsKey s)
        → (if b then ok (String.◌∷◌ c "") else at (n - 1) chars) ≡ ok s
        → IsKey s
    go true later e =
        let same : String.◌∷◌ c "" ≡ s = cc e in rw (← same) (refl, rw (head_plain c chars h) refl)
    go false later e = later e

charset-plain : all_chars is_plain charset ≡ true
unfolding all_chars
charset-plain = refl

all_chars-append :
    (s t : String)
    → all_chars is_plain s ≡ true
    → all_chars is_plain t ≡ true
    → all_chars is_plain (append s t) ≡ true
unfolding all_chars
all_chars-append String.[] t h k = k
all_chars-append (String.◌∷◌ c s) t h k =
    rw (head_plain c s h, all_chars-append s t (tail_plain c s h) k) refl

join_ok :
    (a b : Result String) (s : String)
    → join a b ≡ ok s
    → (x : String) × (y : String) × (a ≡ ok x) × (b ≡ ok y) × (append x y ≡ s)
join_ok (ok x) (ok y) s h = (x, y, refl, refl, cc h)
join_ok (ok x) (err e) s h = absurd (cc h)
join_ok (ok x) panic s h = absurd (cc h)
join_ok (err e) b s h = absurd (cc h)
join_ok panic b s h = absurd (cc h)

string_with_charset-plain :
    (n : ℕ) (draws : ℕ → ℕ) (s : String)
    → string_with_charset n draws charset ≡ ok s
    → all_chars is_plain s ≡ true
unfolding string_with_charset all_chars
string_with_charset-plain zero draws s h = let same : "" ≡ s = cc h in rw (← same) refl
string_with_charset-plain (suc n) draws s h =
    let (x, y, one, rest, same) = join_ok _ _ s h in
    rw (← same) (
      all_chars-append x y (at-plain charset (draws 0) x charset-plain one).1
        (string_with_charset-plain n (λ i. draws (suc i)) y rest))

-- A key of one character or more
pub string_with_charset-IsKey :
    (n : ℕ) (draws : ℕ → ℕ) (s : String)
    → string_with_charset (suc n) draws charset ≡ ok s
    → IsKey s
unfolding string_with_charset
string_with_charset-IsKey n draws s h =
    let (x, y, one, rest, same) = join_ok _ _ s h in
    let some_char = (at-plain charset (draws 0) x charset-plain one).0 in
    (rw (← same) (is_empty-append x y some_char), string_with_charset-plain (suc n) draws s h)
  where
    is_empty-append : (x y : String) → is_empty x ≡ false → is_empty (append x y) ≡ false
    is_empty-append String.[] y k = absurd (cc k)
    is_empty-append (String.◌∷◌ c x) y k = refl
