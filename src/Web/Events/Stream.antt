-- ===== src/Web/Events/Stream.antt =====
-- A client of a stream of events written by `internal/handler/sse.go`, as the standard describes it: it
-- dispatches the data of an event at each blank line, and drops what has not come to one.
use simple_ci.Base.{
  ◌≡◌, refl, sym, ap, ◌∙◌, ℕ, List, [], ◌∷◌, ◌++◌, All, All-append, append_assoc, Bool, true, false,
  Option, none, some, if◌then◌else◌,
}
use simple_ci.Web.Events.{
  Event, Line, id_line, data_line, event_line, retry_line, comment_line, blank_line, is_empty,
  join_with, unless_empty, data_lines, split, fields, lines_of, read, read-lines_of,
}

-- Whether a blank line comes, the data of the event before it, and the events after it.
pub record Tail : Type 0 where
  pub ended : Bool
  pub current : Option (List ℕ)
  pub later : List (List ℕ)

emit : Option (List ℕ) → List (List ℕ) → List (List ℕ)
emit none later = later
emit (some d) later = d ∷ later

unfoldable pub dispatch : Tail → List (List ℕ)
unfolding emit
dispatch t = if t.ended then emit t.current t.later else t.later

unfoldable pub with_line : List ℕ → Tail → Tail
unfolding join_with
with_line l t = record t { current = some (join_with l t.current) }

unfoldable pub scan : List Line → Tail
unfolding with_line dispatch
scan [] = record { ended = false; current = none; later = [] }
scan (data_line l ∷ ls) = with_line l (scan ls)
scan (blank_line ∷ ls) = record { ended = true; current = none; later = dispatch (scan ls) }
scan (id_line l ∷ ls) = scan ls
scan (event_line l ∷ ls) = scan ls
scan (retry_line l ∷ ls) = scan ls
scan (comment_line l ∷ ls) = scan ls

unfoldable pub read_stream : List Line → List (List ℕ)
unfolding scan dispatch
read_stream ls = dispatch (scan ls)

abbrev IsText : Line → Type 0
IsText blank_line = ⊥
IsText _ = Unit

scan-append :
    (ls : List Line) (rest : List Line)
    → All IsText ls
    → scan (ls ++ blank_line ∷ rest)
      ≡ record { ended = true; current = read (ls ++ blank_line ∷ []); later = read_stream rest }
unfolding scan with_line read read_stream dispatch
scan-append [] rest h = refl
scan-append (data_line l ∷ ls) rest h = ap (with_line l) (scan-append ls rest h.1)
scan-append (blank_line ∷ ls) rest h = absurd h.0
scan-append (id_line l ∷ ls) rest h = scan-append ls rest h.1
scan-append (event_line l ∷ ls) rest h = scan-append ls rest h.1
scan-append (retry_line l ∷ ls) rest h = scan-append ls rest h.1
scan-append (comment_line l ∷ ls) rest h = scan-append ls rest h.1

data_lines-IsText : (ls : List (List ℕ)) → All IsText (data_lines ls)
unfolding data_lines
data_lines-IsText [] = tt
data_lines-IsText (l ∷ ls) = (tt, data_lines-IsText ls)

event-IsText : (e : List ℕ) → All IsText (unless_empty event_line e)
event-IsText [] = tt
event-IsText (b ∷ bs) = (tt, tt)

retry-IsText : (e : List ℕ) → All IsText (unless_empty retry_line e)
retry-IsText [] = tt
retry-IsText (b ∷ bs) = (tt, tt)

comment-IsText : (e : List ℕ) → All IsText (unless_empty comment_line e)
comment-IsText [] = tt
comment-IsText (b ∷ bs) = (tt, tt)

-- What `MarshalTo` writes for data, before its blank line
block : Event → List Line
block ev =
    (id_line ev.id ∷ data_lines (split ev.data_bytes))
    ++ (unless_empty event_line ev.event ++ unless_empty retry_line ev.retry)

text_of : Event → List Line
unfolding block
text_of ev = block ev ++ unless_empty comment_line ev.comment

text_of-IsText : (ev : Event) → All IsText (text_of ev)
unfolding text_of block
text_of-IsText ev =
    let optional =
      All-append IsText (unless_empty event_line ev.event) (unless_empty retry_line ev.retry)
        (event-IsText ev.event) (retry-IsText ev.retry) in
    let written : All IsText (block ev) =
      All-append IsText (id_line ev.id ∷ data_lines (split ev.data_bytes))
        (unless_empty event_line ev.event ++ unless_empty retry_line ev.retry)
        (tt, data_lines-IsText (split ev.data_bytes)) optional in
    All-append IsText (block ev) (unless_empty comment_line ev.comment) written
      (comment-IsText ev.comment)

lines_of-text_of :
    (ev : Event) → is_empty ev.data_bytes ≡ false → lines_of ev ≡ text_of ev ++ blank_line ∷ []
unfolding lines_of fields text_of block
lines_of-text_of ev some_data =
    rw some_data
      (sym (append_assoc (block ev) (unless_empty comment_line ev.comment) (blank_line ∷ [])))

-- An event that has data is dispatched first, and then what is behind it.
pub read_stream-lines_of :
    (ev : Event) (rest : List Line)
    → is_empty ev.data_bytes ≡ false
    → read_stream (lines_of ev ++ rest) ≡ ev.data_bytes ∷ read_stream rest
unfolding read_stream dispatch emit
read_stream-lines_of ev rest some_data =
    let written = lines_of-text_of ev some_data in
    let current : read (text_of ev ++ blank_line ∷ []) ≡ some ev.data_bytes =
      ap read (sym written) ∙ read-lines_of ev some_data in
    ap (λ ls. read_stream (ls ++ rest)) written
    ∙ ap read_stream (append_assoc (text_of ev) (blank_line ∷ []) rest)
    ∙ ap dispatch (scan-append (text_of ev) rest (text_of-IsText ev))
    ∙ ap (λ o. emit o (read_stream rest)) current

pub read_stream-nothing : read_stream [] ≡ []
unfolding read_stream dispatch
read_stream-nothing = refl
