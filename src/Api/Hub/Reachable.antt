-- ===== src/Api/Hub/Reachable.antt =====
-- The hub's states under any interleaving of its operations, and what a stop leaves behind,
-- internal/api/ws_hub.go and internal/api/ws_handler.go.
use blob_indexer_api.Common.{
  ◌∙◌, ap, ℕ, ◌+◌, ◌≡◌, refl, Bool, true, some, List, [], ◌∷◌, String, length, arith, ◌==◌,
  if◌then◌else◌,
}
use blob_indexer_api.Db.Blocks.{contains}
use blob_indexer_api.Api.Hub.{
  Hub, Queued, to_register, to_unregister, drain, release_all, shut_down, new_hub, admit, release,
  remove_one, remove_client, register_client, give_up, broadcast, send_direct, Subscription,
  wants_event,
}
use blob_indexer_api.Common.{occurs}
use blob_indexer_api.Api.Hub.Slots.{occurs-remove_one}
use blob_indexer_api.Api.Hub.Balance.{
  Balanced, Balanced-new_hub, drop_client-Balanced, give_up-Balanced, register_client-Balanced,
  admit-Balanced, remove_client-Balanced, fan_out-Balanced, send_direct-Balanced,
}

module _ (remote_ip : ℕ → String) (max_clients max_conns_per_ip : ℕ) where
  -- One step of a handler or of `Run`. A client is new when it is admitted.
  pub data Step : Hub → Hub → Type 0 where
    admits :
        {h k : Hub} (c : ℕ)
        → occurs h.clients c + occurs h.waiting c ≡ 0
        → admit h (remote_ip c) max_clients max_conns_per_ip ≡ some k
        → Step h (record k { waiting = c ∷ k.waiting })
    gives_up : {h : Hub} (c : ℕ) → contains h.waiting c ≡ true → Step h (give_up remote_ip h c)
    registers :
        {h : Hub} (c : ℕ) → contains h.waiting c ≡ true → Step h (register_client remote_ip h c)
    unregisters : {h : Hub} (c : ℕ) → Step h (remove_client remote_ip h c)
    broadcasts :
        {h : Hub} (state : ℕ → Subscription) (full : ℕ → Bool) (event network : String)
        → Step h (broadcast remote_ip state full h event network)
    sends : {h : Hub} (full : ℕ → Bool) (c : ℕ) → Step h (send_direct remote_ip full h c)

  -- The states that a new hub reaches.
  pub data Reachable : Hub → Type 0 where
    start : Reachable new_hub
    step : {h k : Hub} → Reachable h → Step h k → Reachable k

  Step-Balanced :
      {h k : Hub}
      → Step h k
      → Balanced remote_ip max_clients max_conns_per_ip h
      → Balanced remote_ip max_clients max_conns_per_ip k
  unfolding broadcast
  Step-Balanced (admits {h} {k} c fresh e) b =
      admit-Balanced remote_ip max_clients max_conns_per_ip h k c e fresh b
  Step-Balanced (gives_up {h} c there) b =
      give_up-Balanced remote_ip max_clients max_conns_per_ip h c there b
  Step-Balanced (registers {h} c there) b =
      register_client-Balanced remote_ip max_clients max_conns_per_ip h c there b
  Step-Balanced (unregisters {h} c) b =
      remove_client-Balanced remote_ip max_clients max_conns_per_ip h c b
  Step-Balanced (broadcasts {h} state full event network) b =
      fan_out-Balanced remote_ip max_clients max_conns_per_ip
        (λ c. wants_event (state c) event network) full h h.clients b
  Step-Balanced (sends {h} full c) b =
      send_direct-Balanced remote_ip max_clients max_conns_per_ip full h c b

  -- In every state that the handlers and `Run` reach in any order of their steps, `total` is the
  -- number of clients registered or waiting for it, `perIP` counts those of each known address, no
  -- client is held twice, and neither limit is exceeded, where a limit of 0 is none.
  pub Reachable-Balanced :
      {h : Hub} → Reachable h → Balanced remote_ip max_clients max_conns_per_ip h
  Reachable-Balanced start = Balanced-new_hub remote_ip max_clients max_conns_per_ip
  Reachable-Balanced (step before s) = Step-Balanced s (Reachable-Balanced before)

  -- The clients in the register channel have been admitted and wait.
  abbrev pub Held : Hub → List Queued → Type 0
  Held h [] = Unit
  Held h (to_register c ∷ queued) =
      (contains h.waiting c ≡ true) × Held (register_client remote_ip h c) queued
  Held h (to_unregister c ∷ queued) = Held (remove_client remote_ip h c) queued

  drain-Balanced :
      (h : Hub) (queued : List Queued)
      → Held h queued
      → Balanced remote_ip max_clients max_conns_per_ip h
      → Balanced remote_ip max_clients max_conns_per_ip (drain remote_ip h queued)
  unfolding drain
  drain-Balanced h [] held_all b = b
  drain-Balanced h (to_register c ∷ queued) (there, rest) b =
      drain-Balanced (register_client remote_ip h c) queued rest
        (register_client-Balanced remote_ip max_clients max_conns_per_ip h c there b)
  drain-Balanced h (to_unregister c ∷ queued) rest b =
      drain-Balanced (remove_client remote_ip h c) queued rest
        (remove_client-Balanced remote_ip max_clients max_conns_per_ip h c b)

  remove_one-head : (c : ℕ) (cs : List ℕ) → remove_one c (c ∷ cs) ≡ cs
  unfolding remove_one
  remove_one-head c cs = ground arith

  contains-head : (c : ℕ) (cs : List ℕ) → contains (c ∷ cs) c ≡ true
  unfolding contains
  contains-head c cs = ground arith

  release_all-Balanced :
      (cs : List ℕ) (h : Hub)
      → h.clients ≡ cs
      → Balanced remote_ip max_clients max_conns_per_ip h
      → let k = release_all remote_ip h cs in
        (k.clients ≡ [])
        × (k.waiting ≡ h.waiting)
        × Balanced remote_ip max_clients max_conns_per_ip k
  unfolding release_all release
  release_all-Balanced [] h e b = (e, refl, b)
  release_all-Balanced (c ∷ cs) h e b =
      release_all-Balanced cs
        (release (record h { clients = remove_one c h.clients }) (remote_ip c))
        (ap (remove_one c) e ∙ remove_one-head c cs)
        (drop_client-Balanced remote_ip max_clients max_conns_per_ip h c there b)
    where
      there : contains h.clients c ≡ true
      there = ap (λ l. contains l c) e ∙ contains-head c cs

  -- How often a client is in the register channel.
  abbrev pub registrations : List Queued → ℕ → ℕ
  registrations [] c = 0
  registrations (to_register d ∷ queued) c =
      if d == c then registrations queued c + 1 else registrations queued c
  registrations (to_unregister d ∷ queued) c = registrations queued c

  waiting-remove_client : (h : Hub) (c : ℕ) → (remove_client remote_ip h c).waiting ≡ h.waiting
  unfolding remove_client release
  waiting-remove_client h c = ground arith

  occurs-drain :
      (h : Hub) (queued : List Queued) (c : ℕ)
      → Held h queued
      → occurs (drain remote_ip h queued).waiting c + registrations queued c ≡ occurs h.waiting c
  unfolding drain register_client
  occurs-drain h [] c held_all = omega arith
  occurs-drain h (to_register d ∷ queued) c (there, rest) = ground (
    arith,
    occurs-drain (register_client remote_ip h d) queued c rest,
    occurs-remove_one d c h.waiting there,
  )
  occurs-drain h (to_unregister d ∷ queued) c rest =
      occurs-drain (remove_client remote_ip h d) queued c rest
      ∙ ap (λ l. occurs l c) (waiting-remove_client h d)

  -- When the hub stops, in a reachable state and with whatever is left in its channels, no client
  -- is registered, and the slots still taken are those of the clients that wait and were not in the
  -- register channel: each registration that was there has given back its client's slot.
  pub shut_down-Balanced :
      (h : Hub) (queued : List Queued)
      → Reachable h
      → Held h queued
      → let k = shut_down remote_ip h queued in
        (k.clients ≡ [])
        × (k.total ≡ length k.waiting)
        × ((c : ℕ) → occurs k.waiting c + registrations queued c ≡ occurs h.waiting c)
        × Balanced remote_ip max_clients max_conns_per_ip k
  unfolding shut_down
  shut_down-Balanced h queued reachable held_all =
      let d = drain remote_ip h queued in
      let (gone, waiting, b) =
        release_all-Balanced d.clients d refl
          (drain-Balanced h queued held_all (Reachable-Balanced reachable)) in
      (
        gone,
        ground (arith, b.counted, ap length gone),
        λ c.
            ap (λ l. occurs l c + registrations queued c) waiting
            ∙ occurs-drain h queued c held_all,
        b,
      )
