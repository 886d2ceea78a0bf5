-- ===== src/RunQueue/Clients.antt =====
-- `SSEClientMap` of `internal/service/sse_client_map.go`, and when the handlers of streams in
-- `internal/handler/pipelines.go` receive from its channels. The channels are not buffered: a
-- message goes to a client when its handler takes it.
pub mod Broadcast
pub mod Blocked
mod Examples
use simple_ci.Base.{
  ◌≡◌, refl, String, ◌is◌, Option, none, some, List, [], ◌∷◌, ◌++◌, Bool, not, any, filter,
  if◌then◌else◌,
}
use simple_ci.Base.Errors.{Result, ok, panic}

-- A call of `SendToClients` that holds the mutex: the clients that are still to be served, and the
-- message.
pub record Call (A : Type 0) : Type 0 where
  pub unserved : List String
  pub message : A

pub record Clients (A : Type 0) : Type 0 where
  -- the keys of `clients`
  pub uids : List String
  -- the call that holds the mutex; the other methods hold it for one step
  pub sending : Option (Call A)
  -- the handlers that have left their loop, since their request is done
  pub left : List String
  -- what the handlers have taken, the oldest first
  pub received : List (String × A)

abbrev pub without : String → List String → List String
without uid = filter (λ u. not (u is uid))

abbrev pub includes : String → List String → Bool
includes uid = any (λ u. u is uid)

module _ {A : Type 0} where
  pub new_sse_client_map : Clients A
  new_sse_client_map = record { uids = []; sending = none; left = []; received = [] }

  -- A method that waits for the mutex blocks while a call holds it.
  abbrev pub locked : (Clients A → Result (Clients A)) → Clients A → Option (Result (Clients A))
  locked f s = elim s.sending [ none ↦ some (f s) | some c ↦ none ]

  abbrev pub add : String → Clients A → Result (Clients A)
  add uid s = ok (record s { uids = uid ∷ without uid s.uids })

  pub add_client : String → Clients A → Option (Result (Clients A))
  add_client uid = locked (add uid)

  -- An absent client has a nil channel, and closing it panics.
  abbrev pub remove : String → Clients A → Result (Clients A)
  remove uid s = if includes uid s.uids then ok (record s { uids = without uid s.uids }) else panic

  pub remove_client : String → Clients A → Option (Result (Clients A))
  remove_client uid = locked (remove uid)

  -- `order` is the order in which `range` gives the keys.
  abbrev pub begin : List String → A → Clients A → Result (Clients A)
  begin order message s =
      ok (record s { sending = some (record { unserved = order; message = message }) })

  pub start_send : List String → A → Clients A → Option (Result (Clients A))
  start_send order message = locked (begin order message)

  -- The next step of the call in the mutex: the send to the next client, which waits for good if the
  -- handler has left, or the end of the loop.
  pub send_to : List String → A → Clients A → Option (Clients A)
  send_to [] message s = some (record s { sending = none })
  send_to (uid ∷ rest) message s =
      if includes uid s.left
      then none
      else some (record s {
        sending = some (record { unserved = rest; message = message });
        received = s.received ++ (uid, message) ∷ [];
      })

  pub send_with : Option (Call A) → Clients A → Option (Clients A)
  unfolding send_to
  send_with none s = none
  send_with (some c) s = send_to c.unserved c.message s

  pub send_step : Clients A → Option (Clients A)
  unfolding send_with
  send_step s = send_with s.sending s

  -- The request of a client ends; the handler leaves its loop and goes on to `RemoveClient`.
  unfoldable pub leave : String → Clients A → Clients A
  leave uid s = record s { left = uid ∷ s.left }

  -- The map as the goroutines of the queue and the handlers move it, in any order.
  pub data Steps (s : Clients A) : Clients A → Type 0 where
    start : Steps s s
    added :
        {t u : Clients A} (uid : String) → Steps s t → add_client uid t ≡ some (ok u) → Steps s u
    removed :
        {t u : Clients A} (uid : String) → Steps s t → remove_client uid t ≡ some (ok u) → Steps s u
    called :
        {t u : Clients A} (order : List String) (message : A)
        → Steps s t
        → start_send order message t ≡ some (ok u)
        → Steps s u
    served : {t u : Clients A} → Steps s t → send_step t ≡ some u → Steps s u
    departed : {t : Clients A} (uid : String) → Steps s t → Steps s (leave uid t)
