-- ===== src/Api/Hub/Slots.antt =====
-- The slot counts of the hub under its operations, internal/api/ws_hub.go.
use blob_indexer_api.Common.{
  occurs, ap, ℕ, ◌+◌, ◌-◌, ◌≤◌, ◌<◌, ◌≡◌, refl, ◌⊎◌, inl, inr, true, false, if◌then◌else◌, ◌==◌,
  some, List, [], ◌∷◌, String, string_discrete, length, arith, ℕ_discrete,
}
use blob_indexer_api.Common.Maps.{lookup-insert, lookup-delete}
use blob_indexer_api.Db.Blocks.{contains}
use blob_indexer_api.Api.Hub.{Hub, slots_of, same_ip, admit, release, remove_one}

pub contains-occurs : (xs : List ℕ) (c : ℕ) → (contains xs c ≡ false) ⊎ (1 ≤ occurs xs c)
unfolding contains
contains-occurs [] c = inl refl
contains-occurs (x ∷ xs) c = ground (arith, contains-occurs xs c)

pub occurs-contains : (xs : List ℕ) (c : ℕ) → (contains xs c ≡ true) ⊎ (occurs xs c ≡ 0)
unfolding contains
occurs-contains [] c = inr refl
occurs-contains (x ∷ xs) c = ground (arith, occurs-contains xs c)

pub length-remove_one :
    (c : ℕ) (xs : List ℕ) → contains xs c ≡ true → length xs ≡ length (remove_one c xs) + 1
unfolding contains remove_one
length-remove_one c [] e = cc
length-remove_one c (x ∷ xs) e = ground (arith, length-remove_one c xs)

pub occurs-remove_one :
    (c d : ℕ) (xs : List ℕ)
    → contains xs c ≡ true
    → occurs xs d ≡ occurs (remove_one c xs) d + (if c == d then 1 else 0)
unfolding contains remove_one
occurs-remove_one c d [] e = cc
occurs-remove_one c d (x ∷ xs) e = ground (arith, occurs-remove_one c d xs)

pub slots_of-release :
    (h : Hub) (ip jp : String)
    → slots_of (release h ip).per_ip jp ≡ (
        if same_ip ip ""
        then slots_of h.per_ip jp
        else if same_ip ip jp
        then slots_of h.per_ip jp - 1
        else slots_of h.per_ip jp)
unfolding release slots_of
slots_of-release h ip jp = elim (string_discrete ip jp) [
  | yes same ↦ ground (
    arith,
    same,
    lookup-delete string_discrete ip jp h.per_ip,
    lookup-insert string_discrete ip jp (slots_of h.per_ip ip - 1) h.per_ip,
  )
  | no other ↦ ground (
    arith,
    other,
    lookup-delete string_discrete ip jp h.per_ip,
    lookup-insert string_discrete ip jp (slots_of h.per_ip ip - 1) h.per_ip,
  )
]

pub slots_of-admit :
    (h k : Hub) (ip jp : String) (max_clients max_conns_per_ip : ℕ)
    → admit h ip max_clients max_conns_per_ip ≡ some k
    → (k.clients ≡ h.clients)
      × (k.waiting ≡ h.waiting)
      × (k.total ≡ h.total + 1)
      × (slots_of k.per_ip jp ≡ (
          if same_ip ip ""
          then slots_of h.per_ip jp
          else if same_ip ip jp
          then slots_of h.per_ip jp + 1
          else slots_of h.per_ip jp))
unfolding admit slots_of
slots_of-admit h k ip jp max_clients max_conns_per_ip e = elim (string_discrete ip jp) [
  | yes same ↦
      ground (arith, same, lookup-insert string_discrete ip jp (slots_of h.per_ip ip + 1) h.per_ip)
  | no other ↦
      ground (arith, other, lookup-insert string_discrete ip jp (slots_of h.per_ip ip + 1) h.per_ip)
]

pub admit_caps :
    (h k : Hub) (ip : String) (max_clients max_conns_per_ip : ℕ)
    → admit h ip max_clients max_conns_per_ip ≡ some k
    → ((max_clients ≡ 0) ⊎ (h.total < max_clients))
      × ((max_conns_per_ip ≡ 0)
          ⊎ (same_ip ip "" ≡ true)
          ⊎ (slots_of h.per_ip ip < max_conns_per_ip))
unfolding admit
admit_caps h k ip max_clients max_conns_per_ip e = ground arith

module _ (remote_ip : ℕ → String) where
  -- The slot of an address that a client holds.
  abbrev pub slot_at : ℕ → String → ℕ
  slot_at c ip = if same_ip (remote_ip c) ip then 1 else 0

  -- The slots of an address that the clients of a list hold.
  abbrev pub held : String → List ℕ → ℕ
  held ip [] = 0
  held ip (c ∷ cs) = slot_at c ip + held ip cs

  pub held-remove_one :
      (ip : String) (c : ℕ) (xs : List ℕ)
      → contains xs c ≡ true
      → held ip xs ≡ held ip (remove_one c xs) + slot_at c ip
  unfolding contains remove_one
  held-remove_one ip c [] e = cc
  held-remove_one ip c (x ∷ xs) e = elim (ℕ_discrete x c) [
    | yes same ↦
        let alike : slot_at x ip ≡ slot_at c ip = ap (λ d. slot_at d ip) same in
        ground (arith, alike, same)
    | no other ↦ ground (arith, other, held-remove_one ip c xs)
  ]
