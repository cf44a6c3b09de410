-- ===== src/Api/Hub.antt =====
-- internal/api/ws_hub.go: the connection slots of the WebSocket hub and its `Run` loop, with the
-- slots that the upgrade handler of ws_handler.go holds until its client is registered. A client is
-- the number that stands for its pointer; a limit that is not positive is 0.
pub mod Slots
pub mod Balance
pub mod Reachable
mod Tests
use blob_indexer_api.Common.{
  ℕ, ◌+◌, ◌-◌, ◌≡◌, Bool, true, false, ◌&&◌, not, if◌then◌else◌, ltb, leb, ◌==◌, Option, none, some,
  List, [], ◌∷◌, String, string_discrete,
}
use blob_indexer_api.Common.Maps.{lookup, insert, delete}
use blob_indexer_api.Db.Blocks.{contains}

-- `clients`, `total` and `perIP` of `Hub`; `waiting` are the clients admitted but not registered.
pub record Hub : Type 0 where
  pub clients : List ℕ
  pub waiting : List ℕ
  pub total : ℕ
  pub per_ip : List (String × ℕ)

-- `NewHub`.
abbrev pub new_hub : Hub
new_hub = record { clients = []; waiting = []; total = 0; per_ip = [] }

unfoldable pub slots_of : List (String × ℕ) → String → ℕ
slots_of m ip = elim (lookup string_discrete ip m) [ none ↦ 0 | some n ↦ n ]

abbrev pub same_ip : String → String → Bool
same_ip a b = elim (string_discrete a b) [ yes e ↦ true | no e ↦ false ]

-- `admit`: `none` where the slot is refused.
unfoldable pub admit : Hub → String → ℕ → ℕ → Option Hub
admit h ip max_clients max_conns_per_ip =
    if ltb 0 max_clients && leb max_clients h.total
    then none
    else if ltb 0 max_conns_per_ip
        && (not (same_ip ip "") && leb max_conns_per_ip (slots_of h.per_ip ip))
    then none
    else some (record h {
      total = h.total + 1;
      per_ip =
          if same_ip ip ""
          then h.per_ip
          else insert string_discrete ip (slots_of h.per_ip ip + 1) h.per_ip;
    })

-- `release`.
unfoldable pub release : Hub → String → Hub
release h ip = record h {
  total = h.total - 1;
  per_ip =
      if same_ip ip ""
      then h.per_ip
      else if leb (slots_of h.per_ip ip) 1
      then delete string_discrete ip h.per_ip
      else insert string_discrete ip (slots_of h.per_ip ip - 1) h.per_ip;
}

-- `delete(h.clients, client)`; a set holds a client once.
unfoldable pub remove_one : ℕ → List ℕ → List ℕ
remove_one c [] = []
remove_one c (x ∷ xs) = let rest = remove_one c xs in if x == c then xs else x ∷ rest

-- The fields of `Client` that `wantsEvent` reads.
pub record Subscription : Type 0 where
  pub network_name : String
  pub subscribed_events : Option (List String)

unfoldable pub subscribed : List String → String → Bool
subscribed [] event = false
subscribed (e ∷ es) event = if same_ip e event then true else subscribed es event

-- `wantsEvent`.
unfoldable pub wants_event : Subscription → String → String → Bool
wants_event s event network =
    if not (same_ip s.network_name network)
    then false
    else elim s.subscribed_events [ none ↦ true | some es ↦ subscribed es event ]

-- What waits in the channels when the hub stops.
pub data Queued : Type 0 where
  to_register to_unregister : ℕ → Queued

module _ (remote_ip : ℕ → String) where
  -- `removeClient`.
  unfoldable pub remove_client : Hub → ℕ → Hub
  remove_client h c =
      if contains h.clients c
      then release (record h { clients = remove_one c h.clients }) (remote_ip c)
      else h

  -- `h.clients[client] = struct{}{}`, of a client whose handler gives up its part.
  unfoldable pub register_client : Hub → ℕ → Hub
  register_client h c = record h {
    clients = if contains h.clients c then h.clients else c ∷ h.clients;
    waiting = remove_one c h.waiting;
  }

  -- The handler's release of a slot whose upgrade failed or whose hub has stopped.
  unfoldable pub give_up : Hub → ℕ → Hub
  give_up h c = release (record h { waiting = remove_one c h.waiting }) (remote_ip c)

  -- The loop over the clients of a broadcast; `full` tells whose channel has no room.
  unfoldable pub fan_out : (ℕ → Bool) → (ℕ → Bool) → Hub → List ℕ → Hub
  fan_out wants full h [] = h
  fan_out wants full h (c ∷ cs) =
      fan_out wants full (if wants c && full c then remove_client h c else h) cs

  -- The broadcast case of `Run`.
  unfoldable pub broadcast : (ℕ → Subscription) → (ℕ → Bool) → Hub → String → String → Hub
  broadcast state full h event network =
      fan_out (λ c. wants_event (state c) event network) full h h.clients

  -- The direct case of `Run`.
  unfoldable pub send_direct : (ℕ → Bool) → Hub → ℕ → Hub
  send_direct full h c =
      if not (contains h.clients c) then h else if full c then remove_client h c else h

  -- The drain of the channels when `done` is closed.
  unfoldable pub drain : Hub → List Queued → Hub
  drain h [] = h
  drain h (to_register c ∷ queued) = drain (register_client h c) queued
  drain h (to_unregister c ∷ queued) = drain (remove_client h c) queued

  unfoldable pub release_all : Hub → List ℕ → Hub
  release_all h [] = h
  release_all h (c ∷ cs) =
      release_all (release (record h { clients = remove_one c h.clients }) (remote_ip c)) cs

  -- The `done` case of `Run`.
  unfoldable pub shut_down : Hub → List Queued → Hub
  shut_down h queued = let k = drain h queued in release_all k k.clients
