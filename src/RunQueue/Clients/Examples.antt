-- ===== src/RunQueue/Clients/Examples.antt =====
-- Clients of a stream in `internal/service/sse_client_map.go`: the second of two leaves while a message is
-- sent.
use simple_ci.Base.{refl, String, [], ◌∷◌, none, some}
use simple_ci.RunQueue.Clients.{Clients, leave, start, departed}
use simple_ci.RunQueue.Clients.Blocked.{Blocked, departed_client_blocks}

abbrev two : Clients String
two = record { uids = "a" ∷ "b" ∷ []; sending = none; left = []; received = [] }

abbrev calling : Clients String
calling = record two { sending = some (record { unserved = "a" ∷ "b" ∷ []; message = "hi" }) }

abbrev half : Clients String
half = record calling {
  sending = some (record { unserved = "b" ∷ []; message = "hi" });
  received = ("a", "hi") ∷ [];
}

abbrev blocked : Clients String
blocked = record half { left = "b" ∷ [] }

departed_client_blocks_example : Blocked blocked "b" [] "hi" (leave "a" blocked)
departed_client_blocks_example =
    departed_client_blocks "b" [] "hi" blocked (leave "a" blocked) refl refl (departed "a" start)
