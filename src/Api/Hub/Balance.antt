-- ===== src/Api/Hub/Balance.antt =====
-- The balance of slots and clients, kept by every operation of the hub, internal/api/ws_hub.go.
use blob_indexer_api.Common.{
  ap, ℕ, ◌+◌, ◌≤◌, ◌≡◌, ◌⊎◌, inl, inr, Bool, true, false, ◌&&◌, some, List, [], ◌∷◌, String,
  string_discrete, length, arith, Bool-cases, ℕ_discrete,
}
use blob_indexer_api.Common.Maps.{lookup}
use blob_indexer_api.Db.Blocks.{contains}
use blob_indexer_api.Api.Hub.{
  Hub, new_hub, slots_of, same_ip, admit, release, remove_one, remove_client, register_client,
  give_up, fan_out, send_direct,
}
use blob_indexer_api.Common.{occurs}
use blob_indexer_api.Api.Hub.Slots.{
  contains-occurs, length-remove_one, occurs-remove_one, slots_of-release, slots_of-admit,
  admit_caps, held, held-remove_one,
}

module _ (remote_ip : ℕ → String) (max_clients max_conns_per_ip : ℕ) where
  -- Each client holds one slot, and one of its address if that is known, and the limits are kept.
  pub record Balanced (h : Hub) : Type 0 where
    pub counted : h.total ≡ length h.clients + length h.waiting
    pub counted_by_ip :
        (ip : String)
        → (same_ip ip "" ≡ true)
          ⊎ (slots_of h.per_ip ip ≡ held remote_ip ip h.clients + held remote_ip ip h.waiting)
    pub once : (c : ℕ) → occurs h.clients c + occurs h.waiting c ≤ 1
    pub limited : (max_clients ≡ 0) ⊎ (h.total ≤ max_clients)
    pub limited_by_ip :
        (ip : String)
        → (max_conns_per_ip ≡ 0)
          ⊎ (same_ip ip "" ≡ true)
          ⊎ (slots_of h.per_ip ip ≤ max_conns_per_ip)

  pub Balanced-new_hub : Balanced new_hub
  unfolding slots_of lookup
  Balanced-new_hub = record {
    counted = omega arith;
    counted_by_ip = λ ip. inr (omega arith);
    once = λ c. omega arith;
    limited = inr (omega arith);
    limited_by_ip = λ ip. inr (inr (omega arith));
  }

  -- A release of a client's slot, with the client gone from one of the two lists.
  pub drop_client-Balanced :
      (h : Hub) (c : ℕ)
      → contains h.clients c ≡ true
      → Balanced h
      → Balanced (release (record h { clients = remove_one c h.clients }) (remote_ip c))
  unfolding release
  drop_client-Balanced h c there b =
      let k : Hub = record h { clients = remove_one c h.clients } in
      record {
        counted = omega (arith, b.counted, length-remove_one c h.clients there);
        counted_by_ip = λ ip. ground (
          arith,
          b.counted_by_ip ip,
          slots_of-release k (remote_ip c) ip,
          held-remove_one remote_ip ip c h.clients there,
        );
        once = λ d. omega (arith, b.once d, occurs-remove_one c d h.clients there);
        limited = ground (arith, b.limited);
        limited_by_ip =
            λ ip. ground (arith, b.limited_by_ip ip, slots_of-release k (remote_ip c) ip);
      }

  pub give_up-Balanced :
      (h : Hub) (c : ℕ)
      → contains h.waiting c ≡ true
      → Balanced h
      → Balanced (give_up remote_ip h c)
  unfolding give_up release
  give_up-Balanced h c there b =
      let k : Hub = record h { waiting = remove_one c h.waiting } in
      record {
        counted = omega (arith, b.counted, length-remove_one c h.waiting there);
        counted_by_ip = λ ip. ground (
          arith,
          b.counted_by_ip ip,
          slots_of-release k (remote_ip c) ip,
          held-remove_one remote_ip ip c h.waiting there,
        );
        once = λ d. omega (arith, b.once d, occurs-remove_one c d h.waiting there);
        limited = ground (arith, b.limited);
        limited_by_ip =
            λ ip. ground (arith, b.limited_by_ip ip, slots_of-release k (remote_ip c) ip);
      }

  pub register_client-Balanced :
      (h : Hub) (c : ℕ)
      → contains h.waiting c ≡ true
      → Balanced h
      → Balanced (register_client remote_ip h c)
  unfolding register_client
  register_client-Balanced h c there b =
      let fresh : contains h.clients c ≡ false =
        ground (arith, b.once c, contains-occurs h.clients c, contains-occurs h.waiting c) in
      record {
        counted = ground (arith, b.counted, length-remove_one c h.waiting there);
        counted_by_ip = λ ip.
            ground (arith, b.counted_by_ip ip, held-remove_one remote_ip ip c h.waiting there);
        once = λ d. ground (arith, b.once d, occurs-remove_one c d h.waiting there);
        limited = b.limited;
        limited_by_ip = b.limited_by_ip;
      }

  pub admit-Balanced :
      (h k : Hub) (c : ℕ)
      → admit h (remote_ip c) max_clients max_conns_per_ip ≡ some k
      → occurs h.clients c + occurs h.waiting c ≡ 0
      → Balanced h
      → Balanced (record k { waiting = c ∷ k.waiting })
  admit-Balanced h k c e fresh b =
      let (clients, waiting, total, _) =
        slots_of-admit h k (remote_ip c) "" max_clients max_conns_per_ip e in
      let (room, room_for_ip) = admit_caps h k (remote_ip c) max_clients max_conns_per_ip e in
      record {
        counted = omega (arith, b.counted, ap length clients, ap length waiting, total);
        counted_by_ip = λ ip. ground (
          arith,
          b.counted_by_ip ip,
          ap (held remote_ip ip) clients,
          ap (held remote_ip ip) waiting,
          slots_of-admit h k (remote_ip c) ip max_clients max_conns_per_ip e,
        );
        once = λ d. elim (ℕ_discrete c d) [
          | yes same ↦ ground (
            arith,
            fresh,
            ap (λ l. occurs l d) clients,
            ap (λ l. occurs l d) waiting,
            ap (occurs h.clients) same,
            ap (occurs h.waiting) same,
          )
          | no other ↦
              ground
                (arith, other, b.once d, ap (λ l. occurs l d) clients, ap (λ l. occurs l d) waiting)
        ];
        limited = ground (arith, room, total);
        limited_by_ip = λ ip. elim (string_discrete (remote_ip c) ip) [
          | yes same ↦ ground (
            arith,
            room_for_ip,
            ap (slots_of h.per_ip) same,
            ap (λ jp. same_ip jp "") same,
            slots_of-admit h k (remote_ip c) ip max_clients max_conns_per_ip e,
          )
          | no other ↦ ground (
            arith,
            other,
            b.limited_by_ip ip,
            slots_of-admit h k (remote_ip c) ip max_clients max_conns_per_ip e,
          )
        ];
      }

  pub remove_client-Balanced :
      (h : Hub) (c : ℕ) → Balanced h → Balanced (remove_client remote_ip h c)
  unfolding remove_client
  remove_client-Balanced h c b = elim (Bool-cases (contains h.clients c)) [
    | inl there ↦ rw there (drop_client-Balanced h c there b)
    | inr absent ↦ rw absent b
  ]

  pub fan_out-Balanced :
      (wants full : ℕ → Bool) (h : Hub) (cs : List ℕ)
      → Balanced h
      → Balanced (fan_out remote_ip wants full h cs)
  unfolding fan_out
  fan_out-Balanced wants full h [] b = b
  fan_out-Balanced wants full h (c ∷ cs) b = elim (Bool-cases (wants c && full c)) [
    | inl slow ↦ rw slow (
        fan_out-Balanced wants full (remove_client remote_ip h c) cs (remove_client-Balanced h c b))
    | inr fast ↦ rw fast (fan_out-Balanced wants full h cs b)
  ]

  pub send_direct-Balanced :
      (full : ℕ → Bool) (h : Hub) (c : ℕ) → Balanced h → Balanced (send_direct remote_ip full h c)
  unfolding send_direct
  send_direct-Balanced full h c b = elim (Bool-cases (contains h.clients c)) [
    | inr absent ↦ rw absent b
    | inl there ↦ elim (Bool-cases (full c)) [
      | inl slow ↦ rw (there, slow) (remove_client-Balanced h c b)
      | inr fast ↦ rw (there, fast) b
    ]
  ]
