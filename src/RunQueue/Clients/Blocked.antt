-- ===== src/RunQueue/Clients/Blocked.antt =====
-- When `SendToClients` of `internal/service/sse_client_map.go` blocks for good.
use simple_ci.Base.{
  ◌≡◌, refl, sym, ap, ◌∙◌, String, ◌is◌, some, List, ◌∷◌, Bool, true, false, if◌then◌else◌, arith,
}
use simple_ci.RunQueue.Clients.{
  Clients, includes, add, remove, begin, add_client, remove_client, start_send, send_to, send_with,
  send_step, leave, Steps, start, added, removed, called, served, departed,
}
use simple_ci.RunQueue.Clients.Broadcast.{held}

either : (b : Bool) {c : Bool} → c ≡ true → (if b then true else c) ≡ true
either true e = refl
either false e = e

module _ {A : Type 0} where
  -- The call is blocked behind a client whose handler has left.
  pub record Blocked (s : Clients A) (uid : String) (rest : List String) (m : A) (t : Clients A)
      : Type 0 where
    pub at : t.sending ≡ some (record { unserved = uid ∷ rest; message = m })
    pub gone : includes uid t.left ≡ true
    pub same : t.uids ≡ s.uids
    pub got : t.received ≡ s.received

  stuck :
      (uid : String) (rest : List String) (m : A) (t u : Clients A)
      → t.sending ≡ some (record { unserved = uid ∷ rest; message = m })
      → includes uid t.left ≡ true
      → send_step t ≡ some u
      → ⊥
  unfolding send_step send_with send_to
  stuck uid rest m t u at gone h =
      let here : send_with (some (record { unserved = uid ∷ rest; message = m })) t ≡ some u =
        sym (ap (λ o. send_with o t) at) ∙ h in
      ground (arith, here, gone)

  -- Once the next client of a call of `SendToClients` has left its loop, whatever else happens the
  -- call stays where it is with the mutex: nothing is sent to anyone any more, and no client is added
  -- or removed.
  pub departed_client_blocks :
      (uid : String) (rest : List String) (m : A) (s t : Clients A)
      → s.sending ≡ some (record { unserved = uid ∷ rest; message = m })
      → includes uid s.left ≡ true
      → Steps s t
      → Blocked s uid rest m t
  unfolding add_client remove_client start_send leave
  departed_client_blocks uid rest m s t at gone start = record {
    at = at;
    gone = gone;
    same = refl;
    got = refl;
  }
  departed_client_blocks uid rest m s t at gone (added {t = v} other w h) =
      let b = departed_client_blocks uid rest m s v at gone w in
      absurd (held (add other) v t _ b.at h)
  departed_client_blocks uid rest m s t at gone (removed {t = v} other w h) =
      let b = departed_client_blocks uid rest m s v at gone w in
      absurd (held (remove other) v t _ b.at h)
  departed_client_blocks uid rest m s t at gone (called {t = v} order m' w h) =
      let b = departed_client_blocks uid rest m s v at gone w in
      absurd (held (begin order m') v t _ b.at h)
  departed_client_blocks uid rest m s t at gone (served {t = v} w h) =
      let b = departed_client_blocks uid rest m s v at gone w in
      absurd (stuck uid rest m v t b.at b.gone h)
  departed_client_blocks uid rest m s t at gone (departed {t = v} other w) =
      let b = departed_client_blocks uid rest m s v at gone w in
      record { at = b.at; gone = either (other is uid) b.gone; same = b.same; got = b.got }
