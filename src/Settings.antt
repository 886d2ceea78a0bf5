-- ===== src/Settings.antt =====
-- `internal/settings/settings.go`: the environment, the file `.env` that `ReadDotenv` reads into it, and
-- the settings. A file is its text; a line of more than 64 KB, where the scanner gives up, is left out.
pub mod Keys
pub mod Lines
pub mod Drawn
pub mod Restart
mod Examples
use Prim.Native.Char.{Char, code}
use simple_ci.Base.{
  ◌≡◌, refl, ℕ, ◌*◌, String, ◌<>◌, ◌is◌, leb, ◌==◌, Option, none, some, List, [], ◌∷◌, map, Bool,
  true, false, not, ◌&&◌, ◌||◌, if◌then◌else◌,
}

-- The variables of the environment, the last one set first.
abbrev pub Env : Type 0
Env = List (String × String)

-- `os.LookupEnv`
unfoldable pub lookup_env : String → Env → Option String
lookup_env name [] = none
lookup_env name ((n, value) ∷ env) =
    let rest = lookup_env name env in if n is name then some value else rest

-- `◌<>◌` by its clauses, which computes on a text that is not known.
abbrev pub append : String → String → String
append String.[] t = t
append (String.◌∷◌ c s) t = String.◌∷◌ c (append s t)

any_char : (ℕ → Bool) → String → Bool
any_char p String.[] = false
any_char p (String.◌∷◌ c s) = p (code c) || any_char p s

abbrev pub is_empty : String → Bool
is_empty String.[] = true
is_empty (String.◌∷◌ c s) = false

-- `os.Setenv`, whose error is not looked at: a name that is empty and a zero are refused.
unfoldable pub set_env : String → String → Env → Env
unfolding any_char
set_env name value env =
    if is_empty name || any_char (◌== 0) name || any_char (◌== 0) value
    then env
    else (name, value) ∷ env

unfoldable pub get_env_or_default : Env → String → String → String
get_env_or_default env key default_value = elim (lookup_env key env) [
  | none ↦ default_value
  | some value ↦ value
]

-- The lines of `bufio.Scanner`, first with their carriage returns.
abbrev pub longer : Char → List String → List String
longer c [] = String.◌∷◌ c "" ∷ []
longer c (l ∷ ls) = String.◌∷◌ c l ∷ ls

unfoldable pub scan : String → List String
scan String.[] = []
scan (String.◌∷◌ c s) = let rest = scan s in if code c == b'\n' then "" ∷ rest else longer c rest

unfoldable pub drop_cr : String → String
drop_cr String.[] = ""
drop_cr (String.◌∷◌ c s) =
    let rest = drop_cr s in if (code c == b'\r') && is_empty s then "" else String.◌∷◌ c rest

-- The regular expression `^[^0-9][A-Z0-9_]+=.+$`, from its end to its start.
abbrev pub is_digit : ℕ → Bool
is_digit c = leb b'0' c && leb c b'9'

abbrev pub is_word : ℕ → Bool
is_word c = (leb b'A' c && leb c b'Z') || is_digit c || (c == b'_')

unfoldable pub rest_matches : String → Bool
rest_matches String.[] = false
rest_matches (String.◌∷◌ c s) =
    let rest = rest_matches s in
    if code c == b'=' then not (is_empty s) else is_word (code c) && rest

unfoldable pub matches : String → Bool
matches String.[] = false
matches (String.◌∷◌ c String.[]) = false
matches (String.◌∷◌ c (String.◌∷◌ d s)) =
    not (is_digit (code c)) && is_word (code d) && rest_matches s

-- The first part of `strings.Split(line, "=")`, and what is behind it.
unfoldable pub before_equals : String → String
before_equals String.[] = ""
before_equals (String.◌∷◌ c s) =
    let rest = before_equals s in if code c == b'=' then "" else String.◌∷◌ c rest

unfoldable pub after_equals : String → String
after_equals String.[] = ""
after_equals (String.◌∷◌ c s) = let rest = after_equals s in if code c == b'=' then s else rest

-- `strings.TrimSpace` and `strings.Trim` with a quote
abbrev pub is_space : ℕ → Bool
is_space c =
    (leb 9 c && leb c 13)
    || (c == 32)
    || (c == 0x85)
    || (c == 0xA0)
    || (c == 0x1680)
    || (leb 0x2000 c && leb c 0x200A)
    || (c == 0x2028)
    || (c == 0x2029)
    || (c == 0x202F)
    || (c == 0x205F)
    || (c == 0x3000)

unfoldable pub trim_left : (ℕ → Bool) → String → String
trim_left p String.[] = ""
trim_left p (String.◌∷◌ c s) =
    let rest = trim_left p s in if p (code c) then rest else String.◌∷◌ c s

unfoldable pub trim_right : (ℕ → Bool) → String → String
trim_right p String.[] = ""
trim_right p (String.◌∷◌ c s) =
    let rest = trim_right p s in if p (code c) && is_empty rest then "" else String.◌∷◌ c rest

abbrev pub trim : (ℕ → Bool) → String → String
trim p s = trim_right p (trim_left p s)

abbrev pub is_comment : String → Bool
is_comment String.[] = true
is_comment (String.◌∷◌ c s) = code c == b'#'

-- The body of the loop of `ReadDotenv`; an empty line counts as a comment.
unfoldable pub read_line : Env → String → Env
read_line env line =
    if not (is_comment line) && matches line
    then set_env (trim is_space (before_equals line))
        (trim (◌== b'"') (trim is_space (before_equals (after_equals line)))) env
    else env

abbrev pub lines_of : String → List String
lines_of text = map drop_cr (scan text)

abbrev pub read_lines : Env → List String → Env
read_lines env [] = env
read_lines env (l ∷ ls) = read_lines (read_line env l) ls

unfoldable pub read_dotenv : String → Env → Env
read_dotenv text env = read_lines env (lines_of text)

pub record AppSettings : Type 0 where
  pub sqlite_database : String
  pub domain : String
  pub port : String
  -- in seconds
  pub session_expires : ℕ

with_colon : String → String
with_colon String.[] = ":"
with_colon (String.◌∷◌ c s) = if code c == b':' then String.◌∷◌ c s else ":" <> String.◌∷◌ c s

unfoldable pub new_settings : Env → AppSettings
unfolding with_colon
new_settings env = record {
  sqlite_database = get_env_or_default env "SIMPLECI_DB_PATH" "file:.///db.sqlite";
  domain = get_env_or_default env "SIMPLECI_DOMAIN" "localhost";
  port = with_colon (get_env_or_default env "SIMPLECI_PORT" ":8080");
  session_expires = 30 * 24 * 3600;
}

unfoldable pub base_url : AppSettings → String
base_url s =
    if s.domain is "localhost" then "http://" <> s.domain <> s.port else "https://" <> s.domain
