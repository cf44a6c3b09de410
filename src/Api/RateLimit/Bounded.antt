-- ===== src/Api/RateLimit/Bounded.antt =====
-- The table of the limiter stays sound and within its bound.
use blob_indexer_api.Common.{
  by_test, ℕ, zero, suc, ◌*◌, ◌-◌, ◌≤◌, ◌<◌, ◌≡◌, refl, ap, subst, ◌⊎◌, inl, inr, Bool, true, ◌||◌,
  ◌==◌, ltb, is_some, none, some, List, [], ◌∷◌, length, All, String, string_discrete, arith,
  Bool-cases, Option-cases,
}
use blob_indexer_api.Common.Maps.{lookup, delete, lookup-insert, lookup-delete}
use blob_indexer_api.Api.RateLimit.{
  Visitor, RateLimiter, new_rate_limiter, unlink, back, evict_if_full, admit_new, replenished,
  spend, use_visitor, allow_one, allow, idle, forget, forget_all, cleanup, Event, request, round,
  run,
}
use blob_indexer_api.Api.RateLimit.Table.{
  listed, NoDuplicates, DistinctKeys, listed-unlink, NoDuplicates-unlink, length-unlink,
  unlink-back, back-none, length-insert, length-delete, DistinctKeys-insert, listed_cons,
  DistinctKeys-delete, All-insert, All-delete,
}

-- Both sides name the same addresses, each once; no bucket is over its size, and the number of
-- visitors is within the bound, if there is one.
pub record IsValid (rl : RateLimiter) : Type 0 where
  pub same : (ip : String) → listed rl.lru ip ≡ is_some (lookup string_discrete ip rl.visitors)
  pub once : NoDuplicates rl.lru
  pub keys : DistinctKeys rl.visitors
  pub size : length rl.visitors ≡ length rl.lru
  pub buckets : All (λ e. e.1.tokens ≤ rl.burst * rl.token) rl.visitors
  pub bound : (rl.max_visitors ≡ 0) ⊎ (length rl.visitors ≤ rl.max_visitors)

forget-IsValid : (ip : String) (rl : RateLimiter) → IsValid rl → IsValid (forget ip rl)
unfolding forget
forget-IsValid ip rl i = record {
  same = λ j. ground (
    arith,
    i.same j,
    listed-unlink ip j rl.lru i.once,
    lookup-delete string_discrete ip j rl.visitors,
  );
  once = NoDuplicates-unlink ip rl.lru i.once;
  keys = DistinctKeys-delete ip rl.visitors i.keys;
  size =
      ground
        (arith, i.size, i.same ip, length-unlink ip rl.lru, length-delete ip rl.visitors i.keys);
  buckets = All-delete (λ v. v.tokens ≤ rl.burst * rl.token) ip rl.visitors i.buckets;
  bound = ground (arith, i.bound, length-delete ip rl.visitors i.keys);
}

-- What is left once room is made: a sound table that has room, for the same addresses but one.
record HasRoom (rl rl' : RateLimiter) : Type 0 where
  valid : IsValid rl'
  room : (rl'.max_visitors ≡ 0) ⊎ (length rl'.visitors < rl'.max_visitors)
  fewer :
      (ip : String)
      → lookup string_discrete ip rl.visitors ≡ none
      → lookup string_discrete ip rl'.visitors ≡ none
  burst : rl'.burst ≡ rl.burst
  token : rl'.token ≡ rl.token

forget-HasRoom :
    (ip : String) (rl : RateLimiter)
    → IsValid rl
    → listed rl.lru ip ≡ true
    → HasRoom rl (forget ip rl)
unfolding forget
forget-HasRoom ip rl i h = record {
  valid = forget-IsValid ip rl i;
  room = ground (arith, i.bound, i.same ip, h, length-delete ip rl.visitors i.keys);
  fewer = λ j e. ground (arith, e, lookup-delete string_discrete ip j rl.visitors);
  burst = refl;
  token = refl;
}

evict_if_full-HasRoom : (rl : RateLimiter) → IsValid rl → HasRoom rl (evict_if_full rl)
unfolding evict_if_full forget
evict_if_full-HasRoom rl i =
    elim (Bool-cases (rl.max_visitors == 0 || ltb (length rl.visitors) rl.max_visitors)) [
      | inl e ↦ rw e (record {
        valid = i;
        room = ground (arith, e);
        fewer = λ j k. k;
        burst = refl;
        token = refl;
      })
      | inr e ↦ rw e (elim (Option-cases (back rl.lru)) [
        | inl empty ↦ absurd (ground (arith, e, back-none rl.lru empty, i.size))
        | inr (ip, last) ↦
            let (dropped, there) = unlink-back rl.lru ip i.once last in
            rw last (
              subst (HasRoom rl)
                (ap (λ l. record rl { visitors = delete string_discrete ip rl.visitors; lru = l })
                  dropped)
                (forget-HasRoom ip rl i there))
      ])
    ]

one_less : (b t : ℕ) → (b - 1) * t ≤ b * t
one_less zero t = omega arith
one_less (suc b) t = let e : suc b - 1 ≡ b = omega arith in rw e (omega arith)

admit_new-IsValid :
    (now : ℕ) (ip : String) (rl : RateLimiter)
    → IsValid rl
    → (rl.max_visitors ≡ 0) ⊎ (length rl.visitors < rl.max_visitors)
    → lookup string_discrete ip rl.visitors ≡ none
    → IsValid (admit_new now ip rl)
unfolding admit_new
admit_new-IsValid now ip rl i room new =
    let v : Visitor = record { tokens = (rl.burst - 1) * rl.token; last_seen = now } in
    record {
      same = λ j. ground (
        arith,
        i.same j,
        listed_cons ip j rl.lru,
        lookup-insert string_discrete ip j v rl.visitors,
      );
      once = (ground (arith, i.same ip, new), i.once);
      keys = DistinctKeys-insert ip v rl.visitors i.keys;
      size = ground (arith, i.size, new, length-insert ip v rl.visitors);
      buckets =
          All-insert (λ v. v.tokens ≤ rl.burst * rl.token) ip v rl.visitors
            (one_less rl.burst rl.token) i.buckets;
      bound = ground (arith, room, new, length-insert ip v rl.visitors);
    }

replenished-le :
    (now : ℕ) (rl : RateLimiter) (v : Visitor) → replenished now rl v ≤ rl.burst * rl.token
unfolding replenished
replenished-le now rl v = ground arith

spend-le :
    (now : ℕ) (rl : RateLimiter) (v : Visitor) → (spend now rl v).0.tokens ≤ rl.burst * rl.token
unfolding spend
spend-le now rl v = ground (arith, replenished-le now rl v)

use_visitor-IsValid :
    (now : ℕ) (ip : String) (v : Visitor) (rl : RateLimiter)
    → IsValid rl
    → lookup string_discrete ip rl.visitors ≡ some v
    → IsValid (use_visitor now ip v rl).0
unfolding use_visitor
use_visitor-IsValid now ip v rl i known =
    let v' = (spend now rl v).0 in
    record {
      same = λ j. ground (
        arith,
        i.same j,
        i.same ip,
        known,
        listed_cons ip j (unlink ip rl.lru),
        listed-unlink ip j rl.lru i.once,
        lookup-insert string_discrete ip j v' rl.visitors,
      );
      once =
          (ground (arith, listed-unlink ip ip rl.lru i.once), NoDuplicates-unlink ip rl.lru i.once);
      keys = DistinctKeys-insert ip v' rl.visitors i.keys;
      size = ground (
        arith,
        i.size,
        i.same ip,
        known,
        length-unlink ip rl.lru,
        length-insert ip v' rl.visitors,
      );
      buckets =
          All-insert (λ v. v.tokens ≤ rl.burst * rl.token) ip v' rl.visitors (spend-le now rl v)
            i.buckets;
      bound = ground (arith, i.bound, known, length-insert ip v' rl.visitors);
    }

allow-IsValid :
    (now : ℕ) (ip : String) (rl : RateLimiter) → IsValid rl → IsValid (allow now ip rl).0
unfolding allow allow_one
allow-IsValid now ip rl i =
    by_test (λ (x : RateLimiter × Bool). IsValid x.0) rl.disabled _ _ (λ _. i)
      (λ _. elim (Option-cases (lookup string_discrete ip rl.visitors)) [
        | inl new ↦
            let r = evict_if_full-HasRoom rl i in
            rw new (admit_new-IsValid now ip (evict_if_full rl) r.valid r.room (r.fewer ip new))
        | inr (v, known) ↦ rw known (use_visitor-IsValid now ip v rl i known)
      ])

forget_all-IsValid :
    (ips : List String) (rl : RateLimiter) → IsValid rl → IsValid (forget_all ips rl)
unfolding forget_all
forget_all-IsValid [] rl i = i
forget_all-IsValid (ip ∷ ips) rl i = forget_all-IsValid ips (forget ip rl) (forget-IsValid ip rl i)

run-IsValid : (es : List Event) (rl : RateLimiter) → IsValid rl → IsValid (run es rl)
unfolding run cleanup
run-IsValid [] rl i = i
run-IsValid (request now ip ∷ es) rl i =
    run-IsValid es (allow now ip rl).0 (allow-IsValid now ip rl i)
run-IsValid (round now limit ∷ es) rl i =
    run-IsValid es (cleanup now limit rl) (forget_all-IsValid (idle now limit rl.visitors) rl i)

nothing : (ip : String) → listed [] ip ≡ is_some (lookup {V = Visitor} string_discrete ip [])
unfolding listed lookup
nothing ip = refl

-- Whatever requests and rounds of the cleanup a new limiter sees, at whatever times, its map and its
-- order of use name the same addresses, each once, no bucket holds more than its size, and the number
-- of visitors stays within the bound.
pub run-new-IsValid :
    (token rate burst : ℕ) (es : List Event) → IsValid (run es (new_rate_limiter token rate burst))
unfolding new_rate_limiter
run-new-IsValid token rate burst es = run-IsValid es (new_rate_limiter token rate burst) (record {
  same = nothing;
  once = tt;
  keys = tt;
  size = refl;
  buckets = tt;
  bound = inr (omega arith);
})
