-- ===== src/Pipelines/Streams.antt =====
-- The handlers of `internal/handler/pipelines.go` that stream events: `GetPipelineRunSSE`,
-- `GetPipelineRunOutput` and `GetPipelineRunStatus`. The templates are parameters, and so is what each round
-- of a handler's loop meets; how other goroutines move the map of clients is in `RunQueue.Clients`.
use simple_ci.Base.{
  All, ◌≡◌, refl, ap, ◌∙◌, ℕ, String, Option, none, some, List, [], ◌∷◌, ◌++◌, if◌then◌else◌,
}
use simple_ci.Base.Errors.{Result, ok, err, panic}
use simple_ci.Base.Exec.{Exec, pure, lift, ◌>>=◌}
use simple_ci.Security.{to_bytes}
use simple_ci.Store.{Run}
use simple_ci.Web.{Reply, Visit, new_error}
use simple_ci.Web.Events.{is_empty, marshal}
use simple_ci.Web.Events.Bytes.{data_event, NoReturn, read_bytes, read_bytes-nothing}
use simple_ci.Web.Events.Bytes.ReadBack.{read_bytes-marshal, marshal-nothing}
use simple_ci.Pipelines.Queues.{Slot, get_pipeline_run_queue}
use simple_ci.Pipelines.Schedules.{on_queues}
use simple_ci.Pipelines.Requests.{RunParams}
use simple_ci.Pipelines.RunPages.{Site}

-- What the `select` of a round takes: the end of the request, a message, or the default.
pub data Round (A : Type 0) : Type 0 where
  request_done : Round A
  message : A → Round A
  nothing : Round A

-- What the client gets: an answer, nothing but the headers, or these bytes, after `AddClient` and before
-- `RemoveClient`.
pub data Streamed : Type 0 where
  replied : Reply → Streamed
  silent : Streamed
  events : List ℕ → Streamed

-- An error of the template is logged, and the message dropped.
abbrev pub written : Option (List ℕ) → List ℕ
written (some bytes) = marshal (data_event bytes)
written none = []

-- The loop, up to the round that ends it or as far as it has come.
pub stream : {A : Type 0} → (A → Option (List ℕ)) → List (Round A) → List ℕ
stream render [] = []
stream render (request_done ∷ rounds) = []
stream render (message a ∷ rounds) = written (render a) ++ stream render rounds
stream render (nothing ∷ rounds) = stream render rounds

abbrev found_queue : List ℕ → Option Slot → Streamed
found_queue bytes none = silent
found_queue bytes (some slot) = events bytes

abbrev streaming : String → List ℕ → Result RunParams → Visit → Exec Site Streamed
streaming text bytes (ok rp) v = do
  rq ← on_queues (get_pipeline_run_queue rp.pipeline_id)
  pure (found_queue bytes rq)
streaming text bytes (err e) v = pure (replied (new_error v (some e) 400 text))
streaming text bytes panic v = lift panic

-- The map is the one of the status clients; `row` is the template `PipelineRunRow`.
pub get_pipeline_run_sse :
    (Run → Option (List ℕ)) → List (Round Run) → Result RunParams → Visit → Exec Site Streamed
unfolding stream
get_pipeline_run_sse row rounds bound v =
    streaming "invalid pipeline or run ID" (stream row rounds) bound v

-- The map is the one of the output clients. The id of the run is bound and not looked at.
pub get_pipeline_run_output : List (Round String) → Result RunParams → Visit → Exec Site Streamed
unfolding stream
get_pipeline_run_output rounds bound v =
    streaming "invalid request ID" (stream (λ out. some (to_bytes out)) rounds) bound v

-- The map is the one of the status clients; `div` is the template `PipelineRunPageStatusDiv`.
pub get_pipeline_run_status :
    (Run → Option (List ℕ)) → List (Round Run) → Result RunParams → Visit → Exec Site Streamed
unfolding stream
get_pipeline_run_status div rounds bound v =
    streaming "invalid request ID" (stream div rounds) bound v

-- The data of the messages that were taken before the request ended, where the template made some.
unfoldable pub taken : {A : Type 0} → (A → Option (List ℕ)) → List (Round A) → List (List ℕ)
taken render [] = []
taken render (request_done ∷ rounds) = []
taken render (message a ∷ rounds) =
    let rest = taken render rounds in
    elim (render a) [ some bytes ↦ if is_empty bytes then rest else bytes ∷ rest | none ↦ rest ]
taken render (nothing ∷ rounds) = taken render rounds

read_written :
    (o : Option (List ℕ)) (bytes : List ℕ) (rest : List (List ℕ))
    → All NoReturn (elim o [ some d ↦ if is_empty d then rest else d ∷ rest | none ↦ rest ])
    → (All NoReturn rest → read_bytes bytes ≡ rest)
    → read_bytes (written o ++ bytes)
      ≡ elim o [ some d ↦ if is_empty d then rest else d ∷ rest | none ↦ rest ]
read_written none bytes rest h ih = ih h
read_written (some []) bytes rest h ih = ap (λ bs. read_bytes (bs ++ bytes)) marshal-nothing ∙ ih h
read_written (some (b ∷ bs)) bytes rest h ih =
    read_bytes-marshal b bs bytes h.0 ∙ ap (◌∷◌ (b ∷ bs)) (ih h.1)

read_bytes-stream :
    {A : Type 0} (render : A → Option (List ℕ)) (rounds : List (Round A))
    → All NoReturn (taken render rounds)
    → read_bytes (stream render rounds) ≡ taken render rounds
unfolding stream taken
read_bytes-stream render [] h = read_bytes-nothing
read_bytes-stream render (request_done ∷ rounds) h = read_bytes-nothing
read_bytes-stream render (message a ∷ rounds) h =
    read_written (render a) (stream render rounds) (taken render rounds) h
      (read_bytes-stream render rounds)
read_bytes-stream render (nothing ∷ rounds) h = read_bytes-stream render rounds h

-- A handler that answers with the events of `rounds`, which read as the messages.
abbrev pub Reads :
    {A : Type 0} → Result Streamed × Site → Site → (A → Option (List ℕ)) → List (Round A) → Type 0
Reads answer b render rounds =
    (bytes : List ℕ) × (answer ≡ (ok (events bytes), b)) × (read_bytes bytes ≡ taken render rounds)

-- If the queue of the pipeline is there and no message has a carriage return in it, the bytes that
-- each of the three streams writes read in a browser, the decoding of UTF-8 apart, as the data of the
-- messages that its handler took before the request ended, in order and with the newlines in them; a
-- message without data, or one whose template fails, is left out. The id of the run makes no
-- difference: the output is that of whatever run the queue is at work on.
pub streams_lem :
    (row div : Run → Option (List ℕ)) (runs : List (Round Run)) (outputs : List (Round String))
    (rp : RunParams) (v : Visit) (slot : Slot) (a b : Site)
    → All NoReturn (taken row runs)
    → All NoReturn (taken (λ out. some (to_bytes out)) outputs)
    → All NoReturn (taken div runs)
    → on_queues (get_pipeline_run_queue rp.pipeline_id) a ≡ (ok (some slot), b)
    → Reads (get_pipeline_run_sse row runs (ok rp) v a) b row runs
      × Reads (get_pipeline_run_output outputs (ok rp) v a) b (λ out. some (to_bytes out)) outputs
      × Reads (get_pipeline_run_status div runs (ok rp) v a) b div runs
unfolding get_pipeline_run_sse get_pipeline_run_output get_pipeline_run_status
streams_lem row div runs outputs rp v slot a b plain_rows plain_outputs plain_divs found = (
  (stream row runs, rw found refl, read_bytes-stream row runs plain_rows),
  (
    stream (λ out. some (to_bytes out)) outputs,
    rw found refl,
    read_bytes-stream _ outputs plain_outputs,
  ),
  (stream div runs, rw found refl, read_bytes-stream div runs plain_divs),
)
