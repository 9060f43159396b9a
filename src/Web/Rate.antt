-- ===== src/Web/Rate.antt =====
-- The token buckets of internal/web/rate.go. Go keeps tokens as floating-point numbers; here they are
-- exact, counted in parts of which `one_token` make a token, and a rate is given in tokens per ten
-- seconds, so that a nanosecond adds `rate` parts. Times are nanoseconds, and the clock is an argument.
pub mod Bounds
pub mod Drift
use mutandae.Prelude.{
  ℕ, ◌+◌, ◌-◌, ◌*◌, String, Bool, true, false, ◌&&◌, ◌||◌, Option, none, some, List, [], ◌∷◌, Dict,
  lookup, insert, length, ltb, leb, ◌==◌, string_eq, nat_eq, if◌then◌else◌,
}
use mutandae.Protocol.{Time}
use mutandae.Protocol.Iso8601.{minute}

abbrev pub one_token : ℕ
one_token = 10_000_000_000

pub record Bucket : Type 0 where
  pub tokens : ℕ
  pub last : Time

pub record RateLimiter : Type 0 where
  pub buckets : Dict Bucket
  pub rate : ℕ
  pub burst : ℕ
  pub max_clients : ℕ

-- `newRateLimiter`; `burst` is a number of tokens.
unfoldable pub new_rate_limiter : ℕ → ℕ → ℕ → RateLimiter
new_rate_limiter rate burst max_clients = record {
  buckets = [];
  rate = rate;
  burst = burst * one_token;
  max_clients = if max_clients == 0 then 10_000 else max_clients;
}

-- The refill; `last` moves only where the clock went backwards.
unfoldable pub refill : RateLimiter → Time → Bucket → Bucket
refill rl now b =
    let filled = b.tokens + (now - b.last) * rl.rate in
    if ltb b.last now
    then record b { tokens = if ltb rl.burst filled then rl.burst else filled }
    else if ltb now b.last
    then record b { last = now }
    else b

abbrev pub idle : Time → Bucket → Bool
idle now b = ltb (5 * minute) (now - b.last)

-- The loop of `prune`.
unfoldable pub drop_idle : Time → Dict Bucket → Dict Bucket
drop_idle now [] = []
drop_idle now ((key, b) ∷ rest) =
    let kept = drop_idle now rest in if idle now b then kept else (key, b) ∷ kept

unfoldable pub prune : Time → RateLimiter → RateLimiter
unfolding drop_idle
prune now rl =
    if ltb (length rl.buckets) rl.max_clients
    then rl
    else record rl { buckets = drop_idle now rl.buckets }

-- What `allow` does with the client's bucket.
unfoldable pub take_token : String → Time → RateLimiter → Bucket → Bool × RateLimiter
unfolding refill prune
take_token key now rl b =
    let b' = refill rl now b in
    if ltb b'.tokens one_token
    then (false, prune now (record rl { buckets = insert key b' rl.buckets }))
    else (
      true,
      record rl { buckets = insert key (record b' { tokens = b'.tokens - one_token }) rl.buckets },
    )

-- A new client gets a full bucket, if there is room.
allow_client : Option Bucket → String → Time → RateLimiter → Bool × RateLimiter
unfolding take_token
allow_client (some b) key now rl = take_token key now rl b
allow_client none key now rl =
    let b : Bucket = record { tokens = rl.burst; last = now } in
    if leb rl.max_clients (length rl.buckets)
    then (false, rl)
    else take_token key now (record rl { buckets = insert key b rl.buckets }) b

unfoldable pub allow : String → Time → RateLimiter → Bool × RateLimiter
unfolding allow_client
allow key now rl = allow_client (lookup key rl.buckets) key now rl
