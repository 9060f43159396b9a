-- ===== src/Examples/Rates.antt =====
-- The properties of the rate limiter, on a concrete one.
use mutandae.Prelude.{◌*◌, ◌≡◌, refl, arith, lookup, [], ◌∷◌}
use mutandae.Protocol.Iso8601.{second}
use mutandae.Web.Rate.{Bucket, RateLimiter, allow, new_rate_limiter, one_token}
use mutandae.Web.Rate.Bounds.{Bounded, Bounded-allow}
use mutandae.Web.Rate.Drift.{admitted, admitted_aged, admitted_new}

-- One token a second, two at once.
abbrev writes : RateLimiter
writes = record { buckets = []; rate = 10; burst = 2 * one_token; max_clients = 3 }

abbrev used_up : Bucket
used_up = record { tokens = 0; last = 0 }

abbrev known_client : RateLimiter
known_client = record writes { buckets = ("1.2.3.4", used_up) ∷ [] }

known_client-Bounded : Bounded known_client
known_client-Bounded = record { clients = omega arith; no_overflow = (omega arith, tt) }

Bounded-allow_example : Bounded (allow "5.6.7.8" second known_client).1
Bounded-allow_example = Bounded-allow "5.6.7.8" second known_client known_client-Bounded

admitted_new_example : admitted 5 "1.2.3.4" second writes ≡ 2
unfolding lookup
admitted_new_example = admitted_new 5 2 "1.2.3.4" second writes refl (omega arith) refl

admitted_aged_example : admitted 5 "1.2.3.4" (3 * second) known_client ≡ 5
unfolding lookup
admitted_aged_example =
    admitted_aged 5 "1.2.3.4" (3 * second) known_client used_up refl (omega arith) (omega arith)
      (omega arith)

-- The bucket of the rule holds two tokens, and five calls pass at once.
new_limiter_runs : (new_rate_limiter 10 2 0).max_clients ≡ 10000
unfolding new_rate_limiter
new_limiter_runs = refl
