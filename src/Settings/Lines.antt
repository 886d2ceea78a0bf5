-- ===== src/Settings/Lines.antt =====
-- What `ReadDotenv` of `internal/settings/settings.go` reads of a line that `writeToDotenv` of
-- `internal/security/encryption.go` has put behind a file.
use Prim.Native.Char.{Char, code}
use simple_ci.Base.{
  ◌≡◌, refl, ap, ◌∙◌, ℕ, ◌==◌, leb, String, List, [], ◌∷◌, ◌++◌, map, Bool, true, false, not, ◌&&◌,
  if◌then◌else◌, arith,
}
use simple_ci.Settings.{
  Env, append, set_env, any_char, is_empty, longer, scan, drop_cr, rest_matches, matches,
  before_equals, after_equals, is_space, trim_left, trim_right, trim, read_line, read_lines,
  lines_of, read_dotenv,
}
use simple_ci.Settings.Keys.{entry_of}

-- A character that the parser of `.env` keeps as it is.
abbrev pub is_plain : ℕ → Bool
is_plain c = leb 33 c && leb c 126 && not (c == b'"') && not (c == b'=')

unfoldable pub all_chars : (ℕ → Bool) → String → Bool
all_chars p String.[] = true
all_chars p (String.◌∷◌ c s) = p (code c) && all_chars p s

-- What a key looks like: it is not empty, and every character is plain.
abbrev pub IsKey : String → Type 0
IsKey s = (is_empty s ≡ false) × (all_chars is_plain s ≡ true)

-- A file whose last line is ended, or an empty one.
unfoldable pub is_ended : String → Bool
is_ended String.[] = true
is_ended (String.◌∷◌ c String.[]) = code c == b'\n'
is_ended (String.◌∷◌ c (String.◌∷◌ d s)) = is_ended (String.◌∷◌ d s)

step : (c : Char) (rest : List String) → List String
step c rest = if code c == b'\n' then "" ∷ rest else longer c rest

step_append :
    (c : Char) (l : String) (ls ms : List String) → step c ((l ∷ ls) ++ ms) ≡ step c (l ∷ ls) ++ ms
unfolding step
step_append c l ls ms = go (code c == b'\n')
  where
    go :
        (b : Bool)
        → (if b then "" ∷ ((l ∷ ls) ++ ms) else longer c ((l ∷ ls) ++ ms))
          ≡ (if b then "" ∷ (l ∷ ls) else longer c (l ∷ ls)) ++ ms
    go true = refl
    go false = refl

scan_some :
    (c : Char) (s : String) → (l : String) × (ls : List String) × (scan (String.◌∷◌ c s) ≡ l ∷ ls)
unfolding scan
scan_some c s = go (code c == b'\n') (scan s)
  where
    go :
        (b : Bool) (rest : List String)
        → (l : String) × (ls : List String) × ((if b then "" ∷ rest else longer c rest) ≡ l ∷ ls)
    go true rest = ("", rest, refl)
    go false [] = (_, [], refl)
    go false (m ∷ ms) = (_, ms, refl)

pub scan-append : (s t : String) → is_ended s ≡ true → scan (append s t) ≡ scan s ++ scan t
unfolding scan is_ended step
scan-append String.[] t h = refl
scan-append (String.◌∷◌ c String.[]) t h = rw h refl
scan-append (String.◌∷◌ c (String.◌∷◌ d s)) t h =
    let (l, ls, same) = scan_some d s in
    ap (step c) (scan-append (String.◌∷◌ d s) t h) ∙ rw same (step_append c l ls (scan t))

pub is_ended-append :
    (s t : String) → is_empty t ≡ false → is_ended t ≡ true → is_ended (append s t) ≡ true
unfolding is_ended
is_ended-append String.[] t h k = k
is_ended-append (String.◌∷◌ c String.[]) String.[] h k = absurd (cc h)
is_ended-append (String.◌∷◌ c String.[]) (String.◌∷◌ d t) h k = k
is_ended-append (String.◌∷◌ c (String.◌∷◌ d s)) t h k = is_ended-append (String.◌∷◌ d s) t h k

module _ (c : Char) (s : String) (key : all_chars is_plain (String.◌∷◌ c s) ≡ true) where
  pub head_plain : is_plain (code c) ≡ true
  unfolding all_chars
  head_plain = ground (arith, key)

  pub tail_plain : all_chars is_plain s ≡ true
  unfolding all_chars
  tail_plain = ground (arith, key)

scan_line : (s : String) → all_chars is_plain s ≡ true → scan (append s "\n") ≡ s ∷ []
unfolding scan
scan_line String.[] h = refl
scan_line (String.◌∷◌ c s) h =
    let p = head_plain c s h in
    let b : (code c == b'\n') ≡ false = ground (arith, p) in
    rw (b, scan_line s (tail_plain c s h)) refl

drop_cr-plain : (s : String) → all_chars is_plain s ≡ true → drop_cr s ≡ s
unfolding drop_cr
drop_cr-plain String.[] h = refl
drop_cr-plain (String.◌∷◌ c s) h =
    let p = head_plain c s h in
    let b : (code c == b'\r') ≡ false = ground (arith, p) in
    rw b (ap (String.◌∷◌ c) (drop_cr-plain s (tail_plain c s h)))

before_equals-plain : (s : String) → all_chars is_plain s ≡ true → before_equals s ≡ s
unfolding before_equals
before_equals-plain String.[] h = refl
before_equals-plain (String.◌∷◌ c s) h =
    let p = head_plain c s h in
    let b : (code c == b'=') ≡ false = ground (arith, p) in
    rw b (ap (String.◌∷◌ c) (before_equals-plain s (tail_plain c s h)))

any_char-zero : (s : String) → all_chars is_plain s ≡ true → any_char (◌== 0) s ≡ false
unfolding any_char
any_char-zero String.[] h = refl
any_char-zero (String.◌∷◌ c s) h =
    let p = head_plain c s h in
    let b : (code c == 0) ≡ false = ground (arith, p) in rw b (any_char-zero s (tail_plain c s h))

-- What none of the characters is, is not trimmed.
module _ (q : ℕ → Bool) (spares : (n : ℕ) → is_plain n ≡ true → q n ≡ false) where
  trim_left-plain : (s : String) → all_chars is_plain s ≡ true → trim_left q s ≡ s
  unfolding trim_left
  trim_left-plain String.[] h = refl
  trim_left-plain (String.◌∷◌ c s) h = rw (spares (code c) (head_plain c s h)) refl

  trim_right-plain : (s : String) → all_chars is_plain s ≡ true → trim_right q s ≡ s
  unfolding trim_right
  trim_right-plain String.[] h = refl
  trim_right-plain (String.◌∷◌ c s) h =
      rw (spares (code c) (head_plain c s h))
        (ap (String.◌∷◌ c) (trim_right-plain s (tail_plain c s h)))

  trim-plain : (s : String) → all_chars is_plain s ≡ true → trim q s ≡ s
  trim-plain s h = ap (trim_right q) (trim_left-plain s h) ∙ trim_right-plain s h

spares_space : (n : ℕ) → is_plain n ≡ true → is_space n ≡ false
spares_space n h = ground (arith, h)

spares_quote : (n : ℕ) → is_plain n ≡ true → (n == b'"') ≡ false
spares_quote n h = ground (arith, h)

-- The value that is kept for a key.
value-plain :
    (s : String)
    → all_chars is_plain s ≡ true
    → trim (◌== b'"') (trim is_space (before_equals s)) ≡ s
value-plain s h =
    rw (before_equals-plain s h, trim-plain is_space spares_space s h)
      (trim-plain (◌== b'"') spares_quote s h)

-- A variable whose entry is read back whatever key it holds.
abbrev pub IsReadable : String → Type 0
IsReadable name =
    (s : String) (env : Env)
    → IsKey s
    → read_lines env (lines_of (entry_of name s)) ≡ (name, s) ∷ env

pub hash_key-IsReadable : IsReadable "SIMPLECI_HASH_KEY"
unfolding scan drop_cr read_line matches rest_matches before_equals after_equals trim_left
    trim_right set_env any_char
hash_key-IsReadable s env (some_char, plain) =
    rw (scan_line s plain)
      (rw (drop_cr-plain s plain, some_char) (rw (value-plain s plain, any_char-zero s plain) refl))

pub block_key-IsReadable : IsReadable "SIMPLECI_BLOCK_KEY"
unfolding scan drop_cr read_line matches rest_matches before_equals after_equals trim_left
    trim_right set_env any_char
block_key-IsReadable s env (some_char, plain) =
    rw (scan_line s plain)
      (rw (drop_cr-plain s plain, some_char) (rw (value-plain s plain, any_char-zero s plain) refl))

-- The entry of a key behind a file is read after the file.
pub read_dotenv-append :
    (name s text : String) (env : Env)
    → IsReadable name
    → IsKey s
    → is_ended text ≡ true
    → read_dotenv (append text (entry_of name s)) env ≡ (name, s) ∷ read_dotenv text env
unfolding read_dotenv
read_dotenv-append name s text env readable key ended =
    rw (scan-append text (entry_of name s) ended) (behind (scan text) env)
  where
    behind :
        (ls : List String) (e : Env)
        → read_lines e (map drop_cr (ls ++ scan (entry_of name s)))
          ≡ (name, s) ∷ read_lines e (map drop_cr ls)
    behind [] e = readable s e key
    behind (l ∷ ls) e = behind ls (read_line e (drop_cr l))

append-some : (s : String) (c : Char) (t : String) → is_empty (append s (String.◌∷◌ c t)) ≡ false
append-some String.[] c t = refl
append-some (String.◌∷◌ d s) c t = refl

pub entry-some : (name s : String) → is_empty (entry_of name s) ≡ false
entry-some name s = append-some name _ _

pub entry-is_ended : (name s : String) → is_ended (entry_of name s) ≡ true
unfolding is_ended
entry-is_ended name s =
    is_ended-append name (append "=" (append s "\n")) refl
      (is_ended-append "=" (append s "\n") (append-some s _ "") (is_ended_line s))
  where
    is_ended_line : (s : String) → is_ended (append s "\n") ≡ true
    is_ended_line String.[] = refl
    is_ended_line (String.◌∷◌ c s) = is_ended-append (String.◌∷◌ c s) "\n" refl refl
