-- ===== src/Web/Events.antt =====
-- `Event.MarshalTo` of `internal/handler/sse.go`, on bytes: the lines that it writes, and the bytes of
-- each. How a browser reads bytes is in `Bytes`, and lines in `Stream`.
pub mod Stream
pub mod Bytes
use simple_ci.Security.{to_bytes}
use simple_ci.Base.{
  ◌≡◌, refl, sym, ap, ◌∙◌, ℕ, List, [], ◌∷◌, ◌++◌, Bool, true, false, Option, none, some, ◌==◌,
  ◌&&◌, if◌then◌else◌, arith, ==_iff, Bool-cases, inl, inr, append_assoc,
}

abbrev pub newline : ℕ
newline = 10

pub record Event : Type 0 where
  pub id : List ℕ
  pub data_bytes : List ℕ
  pub event : List ℕ
  pub retry : List ℕ
  pub comment : List ℕ

-- The lines that are written.
pub data Line : Type 0 where
  id_line data_line event_line retry_line comment_line : List ℕ → Line
  blank_line : Line

abbrev pub is_empty : List ℕ → Bool
is_empty [] = true
is_empty (b ∷ bs) = false

abbrev to_head : ℕ → List (List ℕ) → List (List ℕ)
to_head b [] = (b ∷ []) ∷ []
to_head b (l ∷ ls) = (b ∷ l) ∷ ls

-- `bytes.Split(ev.Data, []byte("\n"))`
split : List ℕ → List (List ℕ)
split [] = [] ∷ []
split (b ∷ bs) = let rest = split bs in if b == newline then [] ∷ rest else to_head b rest

data_lines : List (List ℕ) → List Line
data_lines [] = []
data_lines (l ∷ ls) = data_line l ∷ data_lines ls

abbrev unless_empty : (List ℕ → Line) → List ℕ → List Line
unless_empty line [] = []
unless_empty line (b ∷ bs) = line (b ∷ bs) ∷ []

fields : Event → List Line
unfolding split data_lines
fields ev =
    if is_empty ev.data_bytes
    then []
    else (id_line ev.id ∷ data_lines (split ev.data_bytes))
      ++ (unless_empty event_line ev.event ++ unless_empty retry_line ev.retry)

unfoldable pub lines_of : Event → List Line
unfolding fields
lines_of ev =
    if is_empty ev.data_bytes && is_empty ev.comment
    then []
    else fields ev ++ (unless_empty comment_line ev.comment ++ blank_line ∷ [])

-- The formats of `Fprintf`
unfoldable pub line_bytes : Line → List ℕ
line_bytes (id_line l) = to_bytes "id: " ++ l ++ newline ∷ []
line_bytes (data_line l) = to_bytes "data: " ++ l ++ newline ∷ []
line_bytes (event_line l) = to_bytes "event: " ++ l ++ newline ∷ []
line_bytes (retry_line l) = to_bytes "retry: " ++ l ++ newline ∷ []
line_bytes (comment_line l) = to_bytes ": " ++ l ++ newline ∷ []
line_bytes blank_line = newline ∷ []

unfoldable pub write_lines : List Line → List ℕ
unfolding line_bytes
write_lines [] = []
write_lines (l ∷ ls) = line_bytes l ++ write_lines ls

-- `MarshalTo`, where no write fails
pub marshal : Event → List ℕ
unfolding lines_of write_lines
marshal ev = write_lines (lines_of ev)

-- The data of the lines, with a newline between any two; other lines do not count.
join_with : List ℕ → Option (List ℕ) → List ℕ
join_with l none = l
join_with l (some rest) = l ++ newline ∷ rest

pub read : List Line → Option (List ℕ)
read [] = none
read (data_line l ∷ ls) = some (join_with l (read ls))
read (id_line l ∷ ls) = read ls
read (event_line l ∷ ls) = read ls
read (retry_line l ∷ ls) = read ls
read (comment_line l ∷ ls) = read ls
read (blank_line ∷ ls) = none

read_cons :
    (b : ℕ) (ls : List (List ℕ)) (tail : List Line) (d : List ℕ)
    → read (data_lines ls ++ tail) ≡ some d
    → read tail ≡ none
    → read (data_lines (to_head b ls) ++ tail) ≡ some (b ∷ d)
unfolding read data_lines join_with
read_cons b [] tail d h e = absurd (cc (h, e))
read_cons b (l ∷ ls) tail d h e = ground (arith, h)

read-split :
    (bs : List ℕ) (tail : List Line)
    → read tail ≡ none
    → read (data_lines (split bs) ++ tail) ≡ some bs
unfolding read split data_lines join_with
read-split [] tail e = rw e refl
read-split (b ∷ bs) tail e =
    let ih = read-split bs tail e in
    elim (Bool-cases (b == newline)) [
      | inl nl ↦ rw (nl, ih) (ap (λ n. some (n ∷ bs)) (sym ((==_iff b newline).0 nl)))
      | inr other ↦ rw other (read_cons b (split bs) tail bs ih e)
    ]

rest_unread :
    (event retry comment : List ℕ)
    → read (
        (unless_empty event_line event ++ unless_empty retry_line retry)
        ++ (unless_empty comment_line comment ++ blank_line ∷ []))
      ≡ none
unfolding read
rest_unread [] [] [] = refl
rest_unread [] [] (c ∷ cs) = refl
rest_unread [] (r ∷ rs) [] = refl
rest_unread [] (r ∷ rs) (c ∷ cs) = refl
rest_unread (e ∷ es) [] [] = refl
rest_unread (e ∷ es) [] (c ∷ cs) = refl
rest_unread (e ∷ es) (r ∷ rs) [] = refl
rest_unread (e ∷ es) (r ∷ rs) (c ∷ cs) = refl

-- A client that joins the data lines of an event reads back exactly its data, newlines included,
-- if it has any.
pub read-lines_of :
    (ev : Event) → is_empty ev.data_bytes ≡ false → read (lines_of ev) ≡ some ev.data_bytes
unfolding read lines_of fields
read-lines_of ev some_data =
    let more = unless_empty event_line ev.event ++ unless_empty retry_line ev.retry in
    let end = unless_empty comment_line ev.comment ++ blank_line ∷ [] in
    rw some_data (
      ap read (append_assoc (data_lines (split ev.data_bytes)) more end)
      ∙ read-split ev.data_bytes (more ++ end) (rest_unread ev.event ev.retry ev.comment))
