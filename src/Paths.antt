-- ===== src/Paths.antt =====
-- Repository paths and host names, as the run queue and the services take them apart.
use Prim.Native.Char.{code}
use simple_ci.Base.{◌≡◌, refl, String, ◌<>◌, Bool, false, ◌||◌, ◌==◌, ◌is◌, if◌then◌else◌}

-- `s[strings.LastIndex(s, "/")+1:]`: what stands behind the last slash, or all of `s`.
after_slash : String → String → String
after_slash best String.[] = best
after_slash best (String.◌∷◌ c s) = after_slash (if code c == b'/' then s else best) s

-- `strings.TrimSuffix(s, ".git")`
trim_git : String → String
trim_git String.[] = ""
trim_git (String.◌∷◌ c s) =
    let rest = trim_git s in if String.◌∷◌ c s is ".git" then "" else String.◌∷◌ c rest

-- The directory that `git clone` makes.
unfoldable pub repo_dir : String → String
unfolding after_slash trim_git
repo_dir repository = trim_git (after_slash repository repository)

-- `len(strings.Split(hostname, ":")) != 1`
pub has_colon : String → Bool
has_colon String.[] = false
has_colon (String.◌∷◌ c s) = (code c == b':') || has_colon s

-- `split := strings.Split(hostname, ":"); if len(split) == 1 { hostname += ":22" }`
unfoldable pub with_port : String → String
unfolding has_colon
with_port hostname = if has_colon hostname then hostname else hostname <> ":22"

repo_dir_example : repo_dir "git@github.com:haatos/simple-ci.git" ≡ "simple-ci"
unfolding repo_dir
repo_dir_example = refl
