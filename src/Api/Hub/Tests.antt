-- ===== src/Api/Hub/Tests.antt =====
-- Two clients of one address.
use blob_indexer_api.Common.{
  ℕ, ◌≡◌, refl, none, [], ◌∷◌, String, string_discrete, length, occurs, ◌+◌, ◌==◌, if◌then◌else◌,
}
use blob_indexer_api.Common.Maps.{lookup, insert}
use blob_indexer_api.Db.Blocks.{contains}
use blob_indexer_api.Api.Hub.{
  Hub, new_hub, slots_of, admit, register_client, remove_one, to_register, to_unregister, shut_down,
}
use blob_indexer_api.Api.Hub.Balance.{Balanced}
use blob_indexer_api.Api.Hub.Reachable.{
  Step, admits, registers, Reachable, start, step, Held, Reachable-Balanced, shut_down-Balanced,
}

abbrev address : ℕ → String
address c = "10.0.0.1"

abbrev one_waits : Hub
one_waits = record { clients = []; waiting = 1 ∷ []; total = 1; per_ip = ("10.0.0.1", 1) ∷ [] }

abbrev one_registered : Hub
one_registered = record { clients = 1 ∷ []; waiting = []; total = 1; per_ip = ("10.0.0.1", 1) ∷ [] }

abbrev another_waits : Hub
another_waits = record {
  clients = 1 ∷ [];
  waiting = 2 ∷ [];
  total = 2;
  per_ip = ("10.0.0.1", 2) ∷ [];
}

first_admitted : Step address 3 2 new_hub one_waits
unfolding admit slots_of lookup insert string_discrete
first_admitted = admits 1 refl refl

first_registered : Step address 3 2 one_waits one_registered
unfolding register_client contains remove_one
first_registered = registers 1 refl

second_admitted : Step address 3 2 one_registered another_waits
unfolding admit slots_of lookup insert string_discrete
second_admitted = admits 2 refl refl

reached : Reachable address 3 2 another_waits
reached = step (step (step start first_admitted) first_registered) second_admitted

third_refused : admit another_waits "10.0.0.1" 3 2 ≡ none
unfolding admit slots_of lookup string_discrete
third_refused = refl

Reachable-Balanced_example : Balanced address 3 2 another_waits
Reachable-Balanced_example = Reachable-Balanced address 3 2 reached

queued_waits : Held address 3 2 another_waits (to_register 2 ∷ to_unregister 1 ∷ [])
unfolding contains
queued_waits = (refl, tt)

shut_down-Balanced_example :
    let k = shut_down address another_waits (to_register 2 ∷ to_unregister 1 ∷ []) in
    (k.clients ≡ [])
    × (k.total ≡ length k.waiting)
    × ((c : ℕ) → occurs k.waiting c + (if 2 == c then 1 else 0) ≡ (if 2 == c then 1 else 0) + 0)
    × Balanced address 3 2 k
shut_down-Balanced_example =
    shut_down-Balanced address 3 2 another_waits (to_register 2 ∷ to_unregister 1 ∷ []) reached
      queued_waits
