-- ===== src/Examples/Leases.antt =====
-- The lease of the sweeper over a server that answers at once.
use mutandae.Prelude.{
  ℕ, ◌<◌, if◌then◌else◌, ◌==◌, nat_eq, arith, ◌*◌, String, eq_refl, ◌≡◌, refl, inl, inr, true,
  false, Bool, Option, Option-cases, none, some, [], ◌∷◌, Dict, lookup, insert, delete,
  lookup-insert, trim_space,
}
use mutandae.Protocol.Errors.{Result, ok}
use mutandae.Protocol.Iso8601.{second}
use mutandae.Lifecycle.Lease.{
  Redis, RedisLeaseManager, new_redis_lease_manager, try_acquire, renew, renew_lease_script,
}
use mutandae.Lifecycle.Lease.Exclusive.{
  Lawful, Made, made, done, next, acquires, renews, Refused, lease_exclusive,
}
use mutandae.Examples.{apart}

abbrev Keys : Type 0
Keys = Dict String

abbrev present : Option String → ℕ
present none = 0
present (some v) = 1

abbrev set_if : Option String → String → String → Keys → Result Bool × Keys
set_if none k v w = (ok true, insert k v w)
set_if (some u) k v w = (ok false, w)

abbrev server : Redis Keys
server = record {
  get_key = lookup;
  pexpire = λ k t w. (present (lookup k w), if t == 0 then delete k w else w);
  del = λ k w. (1, delete k w);
  set_nx = λ k v t w. set_if (lookup k w) k v w;
  eval = λ script w. (ok (script w).0, (script w).1);
}

kept :
    (k : String) (t : ℕ) (w : Keys)
    → 0 < t
    → lookup k (if t == 0 then delete k w else w) ≡ lookup k w
kept k t w long = ground (arith, long)

server-Lawful : Lawful server
server-Lawful = record {
  pexpire_keeps = λ k t w long. kept k t w long;
  set_fresh = λ k v t w h. elim (Option-cases (lookup k w)) [
    | inl e ↦ (e, rw (e, lookup-insert k k v w, eq_refl k) refl)
    | inr (u, e) ↦ cc (h, e)
  ];
  set_taken = λ k v u t w h. rw (h, h) refl;
  eval_answers = λ script w n h. refl;
  eval_state = λ script w. inr refl;
}

abbrev first_instance : RedisLeaseManager
first_instance = record { key = "sweeper"; value = "a"; ttl = 30 * second }

abbrev second_instance : RedisLeaseManager
second_instance = record { key = "sweeper"; value = "b"; ttl = 30 * second }

first_instance-Made : Made first_instance
unfolding new_redis_lease_manager trim_space
first_instance-Made = made " sweeper" "a" (30 * second) refl

-- The first instance has renewed, and the second has tried.
abbrev one_key : Keys
one_key = ("sweeper", "a") ∷ []

lease_exclusive_example :
    (server.get_key "sweeper" one_key ≡ some "a") × Refused server second_instance one_key
unfolding try_acquire renew renew_lease_script lookup insert
lease_exclusive_example =
    lease_exclusive server server-Lawful first_instance second_instance [] one_key refl
      (next (renews first_instance one_key first_instance-Made refl)
        (next (acquires second_instance one_key refl) (done one_key)))
      refl (apart "b" "a" refl)
