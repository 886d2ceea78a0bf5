-- ===== src/Store/Table.antt =====
-- A table with an `integer primary key autoincrement`: what the SQL statements of
-- `internal/store` by a primary key do to its rows.
use simple_ci.Base.{
  ◌≡◌, refl, ◌≢◌, ℕ, suc, ◌<◌, ◌≤◌, Option, none, some, List, [], ◌∷◌, ◌++◌, ◌==◌, arith,
  if◌then◌else◌,
}
use mathlib.Core.Option

pub record Table {ℓ} (A : Type ℓ) : Type ℓ where
  pub rows : List A
  -- the largest key that was ever given out
  pub last_id : ℕ

module _ {ℓ} {A : Type ℓ} (key : A → ℕ) where
  -- `select * … where key = k`
  unfoldable pub find : ℕ → List A → Option A
  find k [] = none
  find k (a ∷ rest) = if key a == k then some a else find k rest

  -- `update … where key = k`
  unfoldable pub update : ℕ → (A → A) → List A → List A
  update k f [] = []
  update k f (a ∷ rest) = (if key a == k then f a else a) ∷ update k f rest

  -- `delete … where key = k`
  unfoldable pub remove : ℕ → List A → List A
  remove k [] = []
  remove k (a ∷ rest) = let kept = remove k rest in if key a == k then kept else a ∷ kept

  -- No key was given out twice, and none is above `bound`.
  abbrev pub Fresh : ℕ → List A → Type ℓ
  Fresh bound [] = Unit
  Fresh bound (a ∷ rest) = (key a ≤ bound) × (find (key a) rest ≡ none) × Fresh bound rest

  pub key-find : (k : ℕ) (rest : List A) {a : A} → find k rest ≡ some a → key a ≡ k
  unfolding find
  key-find k [] {a} h = cc
  key-find k (b ∷ rest) {a} h = ground (arith, key-find k rest {a = a})

  pub find-update :
      (k j : ℕ) (f : A → A) (rest : List A)
      → ((a : A) → key (f a) ≡ key a)
      → find j (update k f rest) ≡ (if j == k then Option.map f (find j rest) else find j rest)
  unfolding find update
  find-update k j f [] same = ground arith
  find-update k j f (a ∷ rest) same = ground (arith, same a, find-update k j f rest same)

  pub find-remove :
      (k j : ℕ) (rest : List A) → find j (remove k rest) ≡ (if j == k then none else find j rest)
  unfolding find remove
  find-remove k j [] = ground arith
  find-remove k j (a ∷ rest) = ground (arith, find-remove k j rest)

  pub find_above : (k bound : ℕ) (rest : List A) → Fresh bound rest → bound < k → find k rest ≡ none
  unfolding find
  find_above k bound [] h lt = refl
  find_above k bound (a ∷ rest) h lt = ground (arith, find_above k bound rest h.2 lt)

  pub find-append :
      (k : ℕ) (rest : List A) (b : A)
      → find k rest ≡ none
      → key b ≡ k
      → find k (rest ++ b ∷ []) ≡ some b
  unfolding find
  find-append k [] b h e = ground arith
  find-append k (a ∷ rest) b h e = ground (arith, find-append k rest b)

  pub find-append_ne :
      (k : ℕ) (rest : List A) (b : A) → key b ≢ k → find k (rest ++ b ∷ []) ≡ find k rest
  unfolding find
  find-append_ne k [] b h = ground arith
  find-append_ne k (a ∷ rest) b h = ground (arith, find-append_ne k rest b h)

  pub update-Fresh :
      (k bound : ℕ) (f : A → A) (rest : List A)
      → ((a : A) → key (f a) ≡ key a)
      → Fresh bound rest
      → Fresh bound (update k f rest)
  unfolding update
  update-Fresh k bound f [] same h = tt
  update-Fresh k bound f (a ∷ rest) same h =
      ground
        (arith, same a, update-Fresh k bound f rest same h.2, find-update k (key a) f rest same)

  pub remove-Fresh : (k bound : ℕ) (rest : List A) → Fresh bound rest → Fresh bound (remove k rest)
  unfolding remove
  remove-Fresh k bound [] h = tt
  remove-Fresh k bound (a ∷ rest) h =
      ground (arith, remove-Fresh k bound rest h.2, find-remove k (key a) rest)

  pub append-Fresh :
      (bound : ℕ) (rest : List A) (b : A)
      → Fresh bound rest
      → key b ≡ suc bound
      → Fresh (suc bound) (rest ++ b ∷ [])
  unfolding find
  append-Fresh bound [] b h e = ground arith
  append-Fresh bound (a ∷ rest) b h e =
      ground (arith, append-Fresh bound rest b h.2 e, find-append_ne (key a) rest b)
