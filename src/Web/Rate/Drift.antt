-- ===== src/Web/Rate/Drift.antt =====
-- How many of a client's calls at one instant are let through.
use mathlib.Core.Path.{subst}
use mutandae.Prelude.{
  ℕ, zero, suc, ◌+◌, ◌-◌, ◌*◌, ◌≤◌, ◌<◌, String, ◌≡◌, refl, sym, ◌∙◌, ap, true, false, arith, none,
  some, Dict, [], ◌∷◌, lookup, insert, lookup-insert, eq_refl, length, ltb, leb, string_eq,
  if◌then◌else◌,
}
use mutandae.Protocol.{Time}
use mutandae.Web.Rate.{
  Bucket, RateLimiter, refill, prune, take_token, allow_client, allow, one_token, drop_idle,
}

-- Of `n` calls, one after another, at the time `now`.
unfoldable pub admitted : ℕ → String → Time → RateLimiter → ℕ
admitted zero key now rl = 0
admitted (suc n) key now rl =
    let (let_through, rl') = allow key now rl in
    let rest = admitted n key now rl' in if let_through then suc rest else rest

lookup-insert_own :
    (k : String) (b : Bucket) (rl : RateLimiter) → lookup k (insert k b rl.buckets) ≡ some b
lookup-insert_own k b rl = simp (lookup-insert, eq_refl)

-- The client's bucket, after a refill, holds a token.
allowed_with :
    (key : String) (now : Time) (rl : RateLimiter) (b : Bucket)
    → lookup key rl.buckets ≡ some b
    → one_token ≤ (refill rl now b).tokens
    → allow key now rl ≡ (
      true,
      record rl {
        buckets =
            insert key
              (record (refill rl now b) { tokens = (refill rl now b).tokens - one_token })
              rl.buckets;
      },
    )
unfolding allow allow_client take_token
allowed_with key now rl b found enough =
    let e : ltb (refill rl now b).tokens one_token ≡ false = ground arith in rw (found, e) refl

refused_with :
    (key : String) (now : Time) (rl : RateLimiter) (b : Bucket)
    → lookup key rl.buckets ≡ some b
    → (refill rl now b).tokens < one_token
    → allow key now rl
      ≡ (false, prune now (record rl { buckets = insert key (refill rl now b) rl.buckets }))
unfolding allow allow_client take_token
refused_with key now rl b found less =
    let e : ltb (refill rl now b).tokens one_token ≡ true = ground arith in rw (found, e) refl

refill_aged :
    (key : String) (now : Time) (rl : RateLimiter) (b : Bucket)
    → b.last < now
    → rl.burst ≤ (now - b.last) * rl.rate
    → refill rl now b ≡ record b { tokens = rl.burst }
unfolding refill
refill_aged key now rl b older fills =
    let e : ltb b.last now ≡ true = ground arith in
    rw e (ap (λ t. record b { tokens = t }) (full b.tokens ((now - b.last) * rl.rate) fills))
  where
    full :
        (t gain : ℕ)
        → rl.burst ≤ gain
        → (if ltb rl.burst (t + gain) then rl.burst else t + gain) ≡ rl.burst
    full t gain le = ground arith

-- When the time since a bucket's recorded instant would fill it and the burst is at least one
-- token, all of n calls at one instant are let through, for every n: the refill does not move the
-- recorded instant.
pub admitted_aged :
    (n : ℕ) (key : String) (now : Time) (rl : RateLimiter) (b : Bucket)
    → lookup key rl.buckets ≡ some b
    → b.last < now
    → rl.burst ≤ (now - b.last) * rl.rate
    → one_token ≤ rl.burst
    → admitted n key now rl ≡ n
unfolding admitted
admitted_aged zero key now rl b found older fills room = refl
admitted_aged (suc n) key now rl b found older fills room =
    let full : rl.burst ≡ (refill rl now b).tokens =
      sym (ap (λ c. c.tokens) (refill_aged key now rl b older fills)) in
    let same : b.last ≡ (refill rl now b).last =
      sym (ap (λ c. c.last) (refill_aged key now rl b older fills)) in
    rw (allowed_with key now rl b found (omega arith)) (
      ap suc (
        admitted_aged n key now _ _ (lookup-insert_own key _ rl) (omega arith)
          (subst (λ l. rl.burst ≤ (now - l) * rl.rate) same fills) room))

-- A bucket that was filled at this instant.
refill_now : (now : Time) (rl : RateLimiter) (b : Bucket) → b.last ≡ now → refill rl now b ≡ b
unfolding refill
refill_now now rl b e = ground arith

-- A bucket of this instant outlasts pruning.
lookup-drop_idle :
    (key : String) (now : Time) (b : Bucket) (m : Dict Bucket)
    → lookup key m ≡ some b
    → b.last ≡ now
    → lookup key (drop_idle now m) ≡ some b
unfolding lookup drop_idle
lookup-drop_idle key now b [] found here = found
lookup-drop_idle key now b ((j, x) ∷ m) found here = ground (arith, lookup-drop_idle key now b m)

lookup-prune :
    (key : String) (now : Time) (b : Bucket) (rl : RateLimiter)
    → lookup key rl.buckets ≡ some b
    → b.last ≡ now
    → lookup key (prune now rl).buckets ≡ some b
unfolding prune
lookup-prune key now b rl found here =
    ground (arith, lookup-drop_idle key now b rl.buckets found here)

-- With `k` tokens and no time, `k` calls are let through.
admitted_at_once :
    (n k : ℕ) (key : String) (now : Time) (rl : RateLimiter) (b : Bucket)
    → lookup key rl.buckets ≡ some b
    → b.last ≡ now
    → b.tokens ≡ k * one_token
    → admitted n key now rl ≡ (if leb n k then n else k)
unfolding admitted
admitted_at_once zero k key now rl b found here full = ground arith
admitted_at_once (suc n) zero key now rl b found here full =
    let still = refill_now now rl b here in
    let kept =
      lookup-prune key now b (record rl { buckets = insert key b rl.buckets })
        (lookup-insert_own key b rl) here in
    let next = admitted_at_once n zero key now _ b kept here full in
    rw (refused_with key now rl b found (rw still (omega arith)), still) (next ∙ (ground arith))
admitted_at_once (suc n) (suc k) key now rl b found here full =
    let still = refill_now now rl b here in
    let next =
      admitted_at_once n k key now _ (record b { tokens = b.tokens - one_token })
        (lookup-insert_own key _ rl) here (omega arith) in
    rw (allowed_with key now rl b found (rw still (omega arith)), still)
      (ap suc next ∙ (ground arith))

abbrev joined : String → Time → RateLimiter → RateLimiter
joined key now rl = record rl {
  buckets = insert key (record { tokens = rl.burst; last = now }) rl.buckets;
}

allow_new :
    (key : String) (now : Time) (rl : RateLimiter)
    → lookup key rl.buckets ≡ none
    → length rl.buckets < rl.max_clients
    → allow key now rl ≡ allow key now (joined key now rl)
unfolding allow allow_client
allow_new key now rl new room =
    let e : leb rl.max_clients (length rl.buckets) ≡ false = ground arith in
    rw (new, e, lookup-insert_own key (record { tokens = rl.burst; last = now }) rl) refl

-- For a client without a bucket and with room for one, of n calls at one instant exactly the
-- smaller of n and k are let through, where the burst is k tokens.
pub admitted_new :
    (n k : ℕ) (key : String) (now : Time) (rl : RateLimiter)
    → lookup key rl.buckets ≡ none
    → length rl.buckets < rl.max_clients
    → rl.burst ≡ k * one_token
    → admitted n key now rl ≡ (if leb n k then n else k)
unfolding admitted
admitted_new zero k key now rl new room full = ground arith
admitted_new (suc n) k key now rl new room full =
    ap (λ r. let rest = admitted n key now r.1 in if r.0 then suc rest else rest)
      (allow_new key now rl new room)
    ∙ admitted_at_once (suc n) k key now (joined key now rl)
        (record { tokens = rl.burst; last = now }) (lookup-insert_own key _ rl) refl full
