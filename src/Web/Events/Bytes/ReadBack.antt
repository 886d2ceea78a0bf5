-- ===== src/Web/Events/Bytes/ReadBack.antt =====
-- That a browser reads back what `internal/handler/sse.go` writes.
use simple_ci.Base.{
  ◌≡◌, refl, ap, ◌∙◌, ℕ, List, [], ◌∷◌, ◌++◌, map, All, All-append, append_assoc, true, false, ◌==◌,
  Bool-cases, inl, inr, none,
}
use simple_ci.Security.{to_bytes}
use simple_ci.Web.Events.{
  Line, id_line, data_line, event_line, retry_line, comment_line, blank_line, newline, to_head,
  split, data_lines, fields, lines_of, line_bytes, write_lines, marshal,
}
use simple_ci.Web.Events.Stream.{dispatch, with_line, scan, read_stream, read_stream-lines_of}
use simple_ci.Web.Events.Bytes.{
  Cut, complete, cut, carriage_return, line_of, lines_in, read_bytes, data_event, NoReturn,
}

-- A byte that ends no line.
abbrev IsInner : ℕ → Type 0
IsInner b = ((b == newline) ≡ false) × ((b == carriage_return) ≡ false)

cut-line :
    (l rest : List ℕ)
    → All IsInner l
    → cut (l ++ newline ∷ rest) ≡ record { first = l; ended = true; later = lines_in rest }
unfolding cut
cut-line [] rest h = refl
cut-line (b ∷ l) rest h =
    let (n, r) = h.0 in
    rw (n, r) (ap (λ (t : Cut). record t { first = b ∷ t.first }) (cut-line l rest h.1))

lines_in-line :
    (l rest : List ℕ) → All IsInner l → lines_in (l ++ newline ∷ rest) ≡ l ∷ lines_in rest
unfolding complete
lines_in-line l rest h = ap complete (cut-line l rest h)

-- The line of a field and what a browser makes of it.
abbrev content : Line → List ℕ
content (id_line l) = l
content (data_line l) = l
content (event_line l) = l
content (retry_line l) = l
content (comment_line l) = l
content blank_line = []

abbrev seen : Line → Line
seen (data_line l) = data_line l
seen blank_line = blank_line
seen _ = comment_line []

prefixed :
    (name l rest : List ℕ)
    → All IsInner name
    → All IsInner l
    → map line_of (lines_in ((name ++ l ++ newline ∷ []) ++ rest))
      ≡ line_of (name ++ l) ∷ map line_of (lines_in rest)
prefixed name l rest hn hl =
    ap (λ bs. map line_of (lines_in bs)) (append_assoc (name ++ l) (newline ∷ []) rest)
    ∙ ap (map line_of) (lines_in-line (name ++ l) rest (All-append IsInner name l hn hl))

seen_lem :
    (l : Line) (rest : List ℕ)
    → All IsInner (content l)
    → map line_of (lines_in (line_bytes l ++ rest)) ≡ seen l ∷ map line_of (lines_in rest)
unfolding line_bytes line_of to_bytes
seen_lem (id_line l) rest h =
    let e : IsInner 58 = (refl, refl) in prefixed (to_bytes "id: ") l rest (e, (e, (e, (e, tt)))) h
seen_lem (data_line l) rest h =
    let e : IsInner 58 = (refl, refl) in
    prefixed (to_bytes "data: ") l rest (e, (e, (e, (e, (e, (e, tt)))))) h
seen_lem (event_line l) rest h =
    let e : IsInner 58 = (refl, refl) in
    prefixed (to_bytes "event: ") l rest (e, (e, (e, (e, (e, (e, (e, tt))))))) h
seen_lem (retry_line l) rest h =
    let e : IsInner 58 = (refl, refl) in
    prefixed (to_bytes "retry: ") l rest (e, (e, (e, (e, (e, (e, (e, tt))))))) h
seen_lem (comment_line l) rest h =
    let e : IsInner 58 = (refl, refl) in prefixed (to_bytes ": ") l rest (e, (e, tt)) h
seen_lem blank_line rest h = ap (map line_of) (lines_in-line [] rest tt)

scan-seen : (l : Line) (ls ms : List Line) → scan ls ≡ scan ms → scan (seen l ∷ ls) ≡ scan (l ∷ ms)
unfolding scan
scan-seen (id_line l) ls ms h = h
scan-seen (data_line l) ls ms h = ap (with_line l) h
scan-seen (event_line l) ls ms h = h
scan-seen (retry_line l) ls ms h = h
scan-seen (comment_line l) ls ms h = h
scan-seen blank_line ls ms h =
    ap (λ t. record { ended = true; current = none; later = dispatch t }) h

written_scan :
    (ls : List Line) (rest : List ℕ)
    → All (λ l. All IsInner (content l)) ls
    → scan (map line_of (lines_in (write_lines ls ++ rest)))
      ≡ scan (ls ++ map line_of (lines_in rest))
unfolding write_lines
written_scan [] rest h = refl
written_scan (l ∷ ls) rest h =
    ap (λ bs. scan (map line_of (lines_in bs))) (append_assoc (line_bytes l) (write_lines ls) rest)
    ∙ ap scan (seen_lem l (write_lines ls ++ rest) h.0)
    ∙ scan-seen l (map line_of (lines_in (write_lines ls ++ rest)))
        (ls ++ map line_of (lines_in rest)) (written_scan ls rest h.1)

to_head-IsInner :
    (b : ℕ) (ls : List (List ℕ))
    → IsInner b
    → All (λ l. All IsInner (content l)) (data_lines ls)
    → All (λ l. All IsInner (content l)) (data_lines (to_head b ls))
unfolding data_lines
to_head-IsInner b [] h hs = ((h, tt), tt)
to_head-IsInner b (l ∷ ls) h hs = ((h, hs.0), hs.1)

split-IsInner :
    (bs : List ℕ) → NoReturn bs → All (λ l. All IsInner (content l)) (data_lines (split bs))
unfolding split data_lines
split-IsInner [] h = (tt, tt)
split-IsInner (b ∷ bs) h = elim (Bool-cases (b == newline)) [
  | inl nl ↦ rw nl (tt, split-IsInner bs h.1)
  | inr other ↦ rw other (to_head-IsInner b (split bs) (other, h.0) (split-IsInner bs h.1))
]

lines_of-IsInner :
    (b : ℕ) (bs : List ℕ)
    → NoReturn (b ∷ bs)
    → All (λ l. All IsInner (content l)) (lines_of (data_event (b ∷ bs)))
unfolding lines_of fields
lines_of-IsInner b bs h =
    let Inner = λ (l : Line). All IsInner (content l) in
    let ls = data_lines (split (b ∷ bs)) in
    All-append Inner (id_line [] ∷ ls ++ []) (blank_line ∷ [])
      (tt, All-append Inner ls [] (split-IsInner (b ∷ bs) h) tt) (tt, tt)

-- An event with data that has no carriage return is read back first, and then what is behind it.
pub read_bytes-marshal :
    (b : ℕ) (bs rest : List ℕ)
    → NoReturn (b ∷ bs)
    → read_bytes (marshal (data_event (b ∷ bs)) ++ rest) ≡ (b ∷ bs) ∷ read_bytes rest
unfolding marshal read_bytes read_stream
read_bytes-marshal b bs rest h =
    ap dispatch (written_scan (lines_of (data_event (b ∷ bs))) rest (lines_of-IsInner b bs h))
    ∙ read_stream-lines_of (data_event (b ∷ bs)) (map line_of (lines_in rest)) refl

pub marshal-nothing : marshal (data_event []) ≡ []
unfolding marshal
marshal-nothing = refl
