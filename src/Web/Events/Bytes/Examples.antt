-- ===== src/Web/Events/Bytes/Examples.antt =====
-- Events of `internal/handler/sse.go` with line ends in their data.
use simple_ci.Base.{◌≡◌, refl, [], ◌∷◌}
use simple_ci.Security.{to_bytes}
use simple_ci.Web.Events.{marshal, line_bytes}
use simple_ci.Web.Events.Bytes.{read_bytes, data_event}

newline_kept : read_bytes (marshal (data_event (97 ∷ 10 ∷ 98 ∷ []))) ≡ (97 ∷ 10 ∷ 98 ∷ []) ∷ []
unfolding read_bytes marshal to_bytes line_bytes
newline_kept = refl

-- What follows a carriage return is lost.
carriage_return_cuts : read_bytes (marshal (data_event (97 ∷ 13 ∷ 98 ∷ []))) ≡ (97 ∷ []) ∷ []
unfolding read_bytes marshal to_bytes line_bytes
carriage_return_cuts = refl
