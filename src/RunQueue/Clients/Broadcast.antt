-- ===== src/RunQueue/Clients/Broadcast.antt =====
-- What `SendToClients` of `internal/service/sse_client_map.go` hands out.
use simple_ci.Base.{◌≡◌, ◌⊎◌, String, Option, some, List, ◌++◌, map, arith}
use simple_ci.Base.Errors.{Result, ok}
use simple_ci.RunQueue.Clients.{Call, Clients, locked}

module _ {A : Type 0} where
  -- Each of some clients, with the message.
  abbrev pub to_each : A → List String → List (String × A)
  to_each m = map (λ uid. (uid, m))

  -- The call is at the clients `rest`, and nobody came or went since the state `s`.
  pub record Serving (s : Clients A) (done : List String) (rest : List String) (m : A)
      (t : Clients A) : Type 0 where
    pub at : t.sending ≡ some (record { unserved = rest; message = m })
    pub same : t.uids ≡ s.uids
    pub got : t.received ≡ s.received ++ to_each m done

  -- Some more was received, if anything.
  Grows : Clients A → Clients A → Type 0
  Grows t u = (more : List (String × A)) × (u.received ≡ t.received ++ more)

  -- A method that waits for the mutex does nothing while a call holds it.
  pub held :
      (f : Clients A → Result (Clients A)) (t u : Clients A) (c : Call A)
      → t.sending ≡ some c
      → locked f t ≡ some (ok u)
      → ⊥
  held f t u c e h = ground (arith, e, h)

  -- What has come of a call for the clients `us` in the state `s`.
  pub Progress : Clients A → List String → A → Clients A → Type 0
  Progress s us m t =
      ((done : List String) × (rest : List String) × (us ≡ done ++ rest) × Serving s done rest m t)
      ⊎ ((more : List (String × A)) × (t.received ≡ s.received ++ to_each m us ++ more))
