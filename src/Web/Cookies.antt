-- ===== src/Web/Cookies.antt =====
-- `CookieService` of `internal/service/cookie_service.go`. The cookies of gorilla/securecookie are a
-- parameter.
use simple_ci.Base.{
  ◌≡◌, refl, ap, ℕ, ◌+◌, String, ◌is◌, not, Bool, true, Option, none, some, [], ◌∷◌,
}
use simple_ci.Base.Errors.{message, Result, ok, err, panic, ◌>>=◌}
use simple_ci.Settings.{AppSettings, Env, get_env_or_default, lookup_env}

-- `Encode` and `Decode` of a `SecureCookie`, with the name of the cookie; a map is the list of its entries.
pub record SecureCookie : Type 0 where
  pub encode : String → Env → Result String
  pub decode : String → String → Result Env

pub record HttpCookie : Type 0 where
  pub name : String
  pub value : String
  pub path : String
  pub secure : Bool
  pub http_only : Bool
  pub expires : ℕ
  pub domain : String

abbrev pub session_cookie : String
session_cookie = "session"

module _ (s : SecureCookie) (settings : AppSettings) where
  -- `none` stands for a request without the cookie; a key that is not in the map gives the empty text.
  unfoldable pub get_session_id : Option HttpCookie → Result String
  get_session_id none = err (message "http: named cookie not present")
  get_session_id (some cookie) = s.decode session_cookie cookie.value >>= λ values.
      ok (get_env_or_default values "session_id" "")

  unfoldable pub set_cookie : String → Env → String → Bool → Bool → ℕ → String → Result HttpCookie
  set_cookie name values path secure http_only expires domain = s.encode name values >>= λ encoded.
      ok (record {
        name = name;
        value = encoded;
        path = path;
        secure = secure;
        http_only = http_only;
        expires = expires;
        domain = domain;
      })

  unfoldable pub set_session_cookie : ℕ → String → Result HttpCookie
  unfolding set_cookie
  set_session_cookie now session_id =
      set_cookie session_cookie (("session_id", session_id) ∷ []) "/"
        (not (settings.domain is "localhost")) true (now + settings.session_expires) settings.domain

  pub remove_session_cookie : ℕ → HttpCookie
  remove_session_cookie now = record {
    name = session_cookie;
    value = "";
    path = "/";
    secure = not (settings.domain is "localhost");
    http_only = true;
    expires = now;
    domain = settings.domain;
  }

  -- The session that a cookie was set for is read from it, if it decodes to what was encoded.
  pub get_session_id-set_session_cookie :
      (now : ℕ) (session_id : String) (cookie : HttpCookie)
      → ((values : Env) (text : String)
          → s.encode session_cookie values ≡ ok text
          → s.decode session_cookie text ≡ ok values)
      → set_session_cookie now session_id ≡ ok cookie
      → get_session_id (some cookie) ≡ ok session_id
  unfolding set_session_cookie set_cookie get_session_id get_env_or_default lookup_env
  get_session_id-set_session_cookie now session_id cookie decodes =
      go (s.encode session_cookie (("session_id", session_id) ∷ [])) refl
    where
      value_of : Result HttpCookie → String
      value_of (ok c) = c.value
      value_of _ = ""

      go :
          (r : Result String)
          → s.encode session_cookie (("session_id", session_id) ∷ []) ≡ r
          → (r >>= λ encoded. ok (record {
            name = session_cookie;
            value = encoded;
            path = "/";
            secure = not (settings.domain is "localhost");
            http_only = true;
            expires = now + settings.session_expires;
            domain = settings.domain;
          }))
            ≡ ok cookie
          → get_session_id (some cookie) ≡ ok session_id
      go (ok text) made h =
          let same : text ≡ cookie.value = ap value_of h in
          rw (← same, decodes (("session_id", session_id) ∷ []) text made) refl
      go (err e) made h = absurd (cc h)
      go panic made h = absurd (cc h)
