-- ===== src/Web/Events/Bytes.antt =====
-- How a browser reads the bytes that `internal/handler/sse.go` writes, by the standard of server-sent
-- events: a line ends at a newline, a carriage return or both, and of the fields only `data` counts
-- here. The decoding of the text as UTF-8 is left out.
pub mod ReadBack
mod Examples
use simple_ci.Base.{
  ◌≡◌, refl, ℕ, List, [], ◌∷◌, map, All, Bool, true, false, ◌==◌, ◌&&◌, if◌then◌else◌,
}
use simple_ci.Security.{to_bytes}
use simple_ci.Web.Events.{Event, Line, data_line, comment_line, blank_line, newline}
use simple_ci.Web.Events.Stream.{dispatch, scan, read_stream}

abbrev carriage_return : ℕ
carriage_return = 13

-- The line at the start, whether it has come to its end, and the lines behind it that have.
record Cut : Type 0 where
  first : List ℕ
  ended : Bool
  later : List (List ℕ)

complete : Cut → List (List ℕ)
complete t = if t.ended then t.first ∷ t.later else []

abbrev starts_with_newline : List ℕ → Bool
starts_with_newline [] = false
starts_with_newline (b ∷ bs) = b == newline

abbrev ends_here : Cut → Cut
ends_here t = record { first = []; ended = true; later = complete t }

-- A carriage return with a newline behind it ends no line of its own.
cut : List ℕ → Cut
unfolding complete
cut [] = record { first = []; ended = false; later = [] }
cut (b ∷ bs) =
    let rest = cut bs in
    if b == newline
    then ends_here rest
    else if b == carriage_return
    then (if starts_with_newline bs then rest else ends_here rest)
    else record rest { first = b ∷ rest.first }

-- What stands before the first colon, and behind it and a space.
name_of : List ℕ → List ℕ
name_of [] = []
name_of (b ∷ bs) = let rest = name_of bs in if b == 58 then [] else b ∷ rest

without_space : List ℕ → List ℕ
without_space [] = []
without_space (b ∷ bs) = if b == 32 then bs else b ∷ bs

value_of : List ℕ → List ℕ
unfolding without_space
value_of [] = []
value_of (b ∷ bs) = let rest = value_of bs in if b == 58 then without_space bs else rest

same_bytes : List ℕ → List ℕ → Bool
same_bytes [] [] = true
same_bytes (a ∷ l) (b ∷ m) = (a == b) && same_bytes l m
same_bytes _ _ = false

-- Fields other than `data`, and comments, are no part of the data of an event.
line_of : List ℕ → Line
unfolding name_of value_of same_bytes
line_of [] = blank_line
line_of (b ∷ bs) =
    if same_bytes (name_of (b ∷ bs)) (to_bytes "data")
    then data_line (value_of (b ∷ bs))
    else comment_line []

abbrev lines_in : List ℕ → List (List ℕ)
lines_in bs = complete (cut bs)

-- The data of the events in a text, each come to its blank line.
pub read_bytes : List ℕ → List (List ℕ)
unfolding read_stream cut line_of
read_bytes bs = read_stream (map line_of (lines_in bs))

pub read_bytes-nothing : read_bytes [] ≡ []
unfolding read_bytes dispatch scan
read_bytes-nothing = refl

-- The events of the handlers have data and no other field.
abbrev pub data_event : List ℕ → Event
data_event bytes = record { id = []; data_bytes = bytes; event = []; retry = []; comment = [] }

abbrev pub NoReturn : List ℕ → Type 0
NoReturn = All (λ b. (b == 13) ≡ false)
