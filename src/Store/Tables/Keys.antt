-- ===== src/Store/Tables/Keys.antt =====
-- What inserting, updating and deleting rows does to keys, references and unique columns, for the
-- stores of `internal/store`.
use simple_ci.Base.{
  ◌≡◌, refl, sym, ◌∙◌, ap, ◌≢◌, ℕ, String, none, List, [], ◌∷◌, ◌++◌, Bool, true, false, is_some,
  ◌is◌, ◌==◌, any, filter, All, All-append, if◌then◌else◌, arith, eq_iff, Bool-cases, inl, inr,
  ==_iff, if_both,
}
use simple_ci.Store.Table
use simple_ci.Store.Table.{Table}
use simple_ci.Store.Tables.{added, has_key}

module _ {A : Type 0} where
  pub All-imp : {P Q : A → Type 0} (xs : List A) → ((x : A) → P x → Q x) → All P xs → All Q xs
  All-imp [] imp h = tt
  All-imp (x ∷ xs) imp h = (imp x h.0, All-imp xs imp h.1)

  pub All-filter :
      (P : A → Type 0) (p : A → Bool) (xs : List A)
      → All P xs
      → All (λ x. (p x ≡ true) × P x) (filter p xs)
  All-filter P p [] h = tt
  All-filter P p (x ∷ xs) h =
      if_both (All (λ x. (p x ≡ true) × P x)) (p x) _ _ (λ e. ((e, h.0), All-filter P p xs h.1))
        (λ e. All-filter P p xs h.1)

  pub any_none : (p : A → Bool) (xs : List A) → any p xs ≡ false → All (λ x. p x ≡ false) xs
  any_none p [] h = tt
  any_none p (x ∷ xs) h = elim (Bool-cases (p x)) [
    | inl e ↦ absurd (ground (arith, e, h))
    | inr e ↦ (e, any_none p xs (rw e at h))
  ]

  -- A column that no two rows share.
  abbrev pub Unique : (A → String) → List A → Type 0
  Unique f [] = Unit
  Unique f (x ∷ xs) = All (λ y. f y ≢ f x) xs × Unique f xs

  pub differs :
      (f : A → String) (n : String) (xs : List A)
      → any (λ x. f x is n) xs ≡ false
      → All (λ x. f x ≢ n) xs
  differs f n xs h =
      All-imp xs (λ x e same. absurd (ground (arith, e, (eq_iff (f x) n).1 same)))
        (any_none (λ x. f x is n) xs h)

  pub Unique-append :
      (f : A → String) (xs : List A) (b : A)
      → All (λ x. f x ≢ f b) xs
      → Unique f xs
      → Unique f (xs ++ b ∷ [])
  Unique-append f [] b h u = (tt, tt)
  Unique-append f (x ∷ xs) b h u = (
    All-append (λ y. f y ≢ f x) xs (b ∷ []) u.0 ((λ e. h.0 (sym e)), tt),
    Unique-append f xs b h.1 u.1,
  )

module _ {A : Type 0} (key : A → ℕ) where
  pub All-update :
      (P : A → Type 0) (k : ℕ) (f : A → A) (xs : List A)
      → ((x : A) → P x → P (f x))
      → All P xs
      → All P (Table.update key k f xs)
  unfolding Table.update
  All-update P k f [] imp h = tt
  All-update P k f (x ∷ xs) imp h =
      (if_both P (key x == k) _ _ (λ e. imp x h.0) (λ e. h.0), All-update P k f xs imp h.1)

  pub All-remove : (P : A → Type 0) (k : ℕ) (xs : List A) → All P xs → All P (Table.remove key k xs)
  unfolding Table.remove
  All-remove P k [] h = tt
  All-remove P k (x ∷ xs) h =
      let rest = All-remove P k xs h.1 in
      if_both (All P) (key x == k) _ _ (λ e. rest) (λ e. (h.0, rest))

  pub Unique-remove :
      (f : A → String) (k : ℕ) (xs : List A) → Unique f xs → Unique f (Table.remove key k xs)
  unfolding Table.remove
  Unique-remove f k [] h = tt
  Unique-remove f k (x ∷ xs) h =
      let rest = Unique-remove f k xs h.1 in
      if_both (Unique f) (key x == k) _ _ (λ e. rest)
        (λ e. (All-remove (λ y. f y ≢ f x) k xs h.0, rest))

  -- Rows that are not written to column `f` keep it unique.
  pub Unique-update :
      (f : A → String) (k : ℕ) (g : A → A) (xs : List A)
      → ((x : A) → f (g x) ≡ f x)
      → Unique f xs
      → Unique f (Table.update key k g xs)
  unfolding Table.update
  Unique-update f k g [] same h = tt
  Unique-update f k g (x ∷ xs) same h =
      let head : f (if key x == k then g x else x) ≡ f x = ground (arith, same x) in
      (
        rw head (All-update (λ y. f y ≢ f x) k g xs (λ y ne. rw (same y) ne) h.0),
        Unique-update f k g xs same h.1,
      )

  pub update_missing :
      (k : ℕ) (g : A → A) (xs : List A) → Table.find key k xs ≡ none → Table.update key k g xs ≡ xs
  unfolding Table.update Table.find
  update_missing k g [] h = refl
  update_missing k g (x ∷ xs) h = ground (arith, h, update_missing k g xs)

  others_differ :
      (P : A → Type 0) (k : ℕ) (xs : List A)
      → Table.find key k xs ≡ none
      → All (λ y. key y ≢ k → P y) xs
      → All P xs
  unfolding Table.find
  others_differ P k [] e h = tt
  others_differ P k (x ∷ xs) e h = elim (Bool-cases (key x == k)) [
    | inl same ↦ absurd (ground (arith, e, same))
    | inr ne ↦ (h.0 (ground (arith, ne)), others_differ P k xs (rw ne at e) h.1)
  ]

  -- One row is given a name that no other row has.
  pub Unique-set :
      (f : A → String) (n : String) (k bound : ℕ) (g : A → A) (xs : List A)
      → ((x : A) → f (g x) ≡ n)
      → Table.Fresh key bound xs
      → All (λ y. key y ≢ k → f y ≢ n) xs
      → Unique f xs
      → Unique f (Table.update key k g xs)
  unfolding Table.update
  Unique-set f n k bound g [] set fresh h u = tt
  Unique-set f n k bound g (x ∷ xs) set fresh h u = elim (Bool-cases (key x == k)) [
    | inl same ↦
        let at : key x ≡ k = (==_iff (key x) k).0 same in
        let gone : Table.find key k xs ≡ none = ap (λ j. Table.find key j xs) (sym at) ∙ fresh.1 in
        rw (same, update_missing k g xs gone)
          ((rw (set x) (others_differ (λ y. f y ≢ n) k xs gone h.1)), u.1)
    | inr ne ↦
        let off : f x ≢ n = h.0 (ground (arith, ne)) in
        rw ne (
          All-update (λ y. f y ≢ f x) k g xs (λ y d e. off (sym e ∙ set y)) u.0,
          Unique-set f n k bound g xs set fresh.2 h.1 u.1,
        )
  ]

  pub has_key-added :
      (k : ℕ) (b : A) (t : Table A) → has_key key k t ≡ true → has_key key k (added b t) ≡ true
  unfolding Table.find
  has_key-added k b t = go t.rows
    where
      go :
          (xs : List A)
          → is_some (Table.find key k xs) ≡ true
          → is_some (Table.find key k (xs ++ b ∷ [])) ≡ true
      go [] h = absurd (cc h)
      go (x ∷ xs) h = ground (arith, h, go xs)

  pub has_key-update :
      (j k : ℕ) (f : A → A) (xs : List A)
      → ((a : A) → key (f a) ≡ key a)
      → is_some (Table.find key j (Table.update key k f xs)) ≡ is_some (Table.find key j xs)
  unfolding Table.find Table.update
  has_key-update j k f [] same = refl
  has_key-update j k f (x ∷ xs) same = ground (arith, same x, has_key-update j k f xs same)

  pub has_key-remove :
      (j k : ℕ) (xs : List A)
      → j ≢ k
      → is_some (Table.find key j (Table.remove key k xs)) ≡ is_some (Table.find key j xs)
  has_key-remove j k xs ne = ap is_some (Table.find-remove key k j xs) ∙ ground (arith, ne)

pub remove_missing :
    {A : Type 0} (key : A → ℕ) (k : ℕ) (xs : List A)
    → Table.find key k xs ≡ none
    → Table.remove key k xs ≡ xs
unfolding Table.find Table.remove
remove_missing key k [] h = refl
remove_missing key k (x ∷ xs) h = ground (arith, h, remove_missing key k xs)

pub All-both :
    {A : Type 0} (P Q R : A → Type 0) (xs : List A)
    → ((x : A) → P x → Q x → R x)
    → All P xs
    → All Q xs
    → All R xs
All-both P Q R [] f h k = tt
All-both P Q R (x ∷ xs) f h k = (f x h.0 k.0, All-both P Q R xs f h.1 k.1)
