-- ===== src/Web/Rate/Bounds.antt =====
-- The size of the table of clients, and the tokens of a bucket.
use mutandae.Prelude.{
  ℕ, suc, ◌≤◌, String, ◌≡◌, refl, Bool-cases, inl, inr, arith, Option, none, some, [], ◌∷◌, Dict,
  lookup, insert, lookup-insert, eq_refl, length, ltb, leb, ◌==◌, string_eq, All,
}
use mutandae.Protocol.{Time}
use mutandae.Web.Rate.{
  Bucket, RateLimiter, refill, drop_idle, prune, take_token, allow_client, allow, one_token, idle,
}

module _ {V : Type 0} where
  length-insert_le : (k : String) (v : V) (m : Dict V) → length (insert k v m) ≤ suc (length m)
  unfolding insert
  length-insert_le k v [] = omega arith
  length-insert_le k v ((j, w) ∷ m) = ground (arith, length-insert_le k v m)

  -- Writing an entry that is there adds none.
  length-insert_eq :
      (k : String) (v w : V) (m : Dict V) → lookup k m ≡ some w → length (insert k v m) ≡ length m
  unfolding insert lookup
  length-insert_eq k v w [] h = ground arith
  length-insert_eq k v w ((j, x) ∷ m) h = ground (arith, length-insert_eq k v w m)

length-drop_idle : (now : Time) (m : Dict Bucket) → length (drop_idle now m) ≤ length m
unfolding drop_idle
length-drop_idle now [] = omega arith
length-drop_idle now ((k, b) ∷ m) = ground (arith, length-drop_idle now m)

-- No more clients than there is room for, and no bucket overflows.
pub record Bounded (rl : RateLimiter) : Type 0 where
  pub clients : length rl.buckets ≤ rl.max_clients
  pub no_overflow : All (λ p. p.1.tokens ≤ rl.burst) rl.buckets

abbrev Within : ℕ → String × Bucket → Type 0
Within cap p = p.1.tokens ≤ cap

module _ (cap : ℕ) where
  Within-insert :
      (k : String) (b : Bucket) (m : Dict Bucket)
      → b.tokens ≤ cap
      → All (Within cap) m
      → All (Within cap) (insert k b m)
  unfolding insert
  Within-insert k b [] le h = (le, tt)
  Within-insert k b ((j, x) ∷ m) le (p, h) = elim (Bool-cases (j == k)) [
    | inl e ↦ rw e (le, h)
    | inr e ↦ rw e (p, Within-insert k b m le h)
  ]

  Within-drop_idle :
      (now : Time) (m : Dict Bucket) → All (Within cap) m → All (Within cap) (drop_idle now m)
  unfolding drop_idle
  Within-drop_idle now [] h = tt
  Within-drop_idle now ((j, x) ∷ m) (p, h) = elim (Bool-cases (idle now x)) [
    | inl e ↦ rw e (Within-drop_idle now m h)
    | inr e ↦ rw e (p, Within-drop_idle now m h)
  ]

  Within-lookup :
      (k : String) (b : Bucket) (m : Dict Bucket)
      → All (Within cap) m
      → lookup k m ≡ some b
      → b.tokens ≤ cap
  unfolding lookup
  Within-lookup k b [] h found = cc
  Within-lookup k b ((j, x) ∷ m) (p, h) found = ground (arith, Within-lookup k b m h)

refill_le :
    (rl : RateLimiter) (now : Time) (b : Bucket)
    → b.tokens ≤ rl.burst
    → (refill rl now b).tokens ≤ rl.burst
unfolding refill
refill_le rl now b le = ground arith

Bounded-prune : (now : Time) (rl : RateLimiter) → Bounded rl → Bounded (prune now rl)
unfolding prune
Bounded-prune now rl h = elim (Bool-cases (ltb (length rl.buckets) rl.max_clients)) [
  | inl e ↦ rw e h
  | inr e ↦ rw e (record {
    clients = omega (arith, h.clients, length-drop_idle now rl.buckets);
    no_overflow = Within-drop_idle rl.burst now rl.buckets h.no_overflow;
  })
]

-- Writing the bucket of a client that is there.
Bounded-write :
    (key : String) (old b : Bucket) (rl : RateLimiter)
    → lookup key rl.buckets ≡ some old
    → b.tokens ≤ rl.burst
    → Bounded rl
    → Bounded (record rl { buckets = insert key b rl.buckets })
Bounded-write key old b rl found le h = record {
  clients = omega (arith, h.clients, length-insert_eq key b old rl.buckets found);
  no_overflow = Within-insert rl.burst key b rl.buckets le h.no_overflow;
}

Bounded-take_token :
    (key : String) (now : Time) (rl : RateLimiter) (b : Bucket)
    → lookup key rl.buckets ≡ some b
    → Bounded rl
    → Bounded (take_token key now rl b).1
unfolding take_token
Bounded-take_token key now rl b found h =
    let le = refill_le rl now b (Within-lookup rl.burst key b rl.buckets h.no_overflow found) in
    elim (Bool-cases (ltb (refill rl now b).tokens one_token)) [
      | inl e ↦ rw e (Bounded-prune now _ (Bounded-write key b (refill rl now b) rl found le h))
      | inr e ↦ rw e (Bounded-write key b _ rl found (omega arith) h)
    ]

Bounded-allow_client :
    (o : Option Bucket) (key : String) (now : Time) (rl : RateLimiter)
    → lookup key rl.buckets ≡ o
    → Bounded rl
    → Bounded (allow_client o key now rl).1
unfolding allow_client
Bounded-allow_client (some b) key now rl found h = Bounded-take_token key now rl b found h
Bounded-allow_client none key now rl found h =
    elim (Bool-cases (leb rl.max_clients (length rl.buckets))) [
      | inl e ↦ rw e h
      | inr e ↦ rw e (
          Bounded-take_token key now _ _ (lookup-insert_own key _ rl.buckets) (record {
            clients = ground (arith, length-insert_le key (start now) rl.buckets);
            no_overflow =
                Within-insert rl.burst key (start now) rl.buckets (omega arith) h.no_overflow;
          }))
    ]
  where
    start : Time → Bucket
    start now = record { tokens = rl.burst; last = now }

    lookup-insert_own :
        (k : String) (b : Bucket) (m : Dict Bucket) → lookup k (insert k b m) ≡ some b
    lookup-insert_own k b m = simp (lookup-insert, eq_refl)

-- If a rate limiter has no more clients than its maximum and no bucket above the burst, so it is
-- after any call of allow.
pub Bounded-allow :
    (key : String) (now : Time) (rl : RateLimiter) → Bounded rl → Bounded (allow key now rl).1
unfolding allow
Bounded-allow key now rl h = Bounded-allow_client (lookup key rl.buckets) key now rl refl h
