-- ===== src/Lifecycle/Lease.antt =====
-- The leases of internal/lifecycle/lease.go. The commands of Redis are a parameter: `eval` runs a
-- script on the server, whose state is the world; the scripts are those of the source.
pub mod Exclusive
use Prim.Native.Char.{code}
use mutandae.Prelude.{
  ℕ, ◌/◌, String, Bool, true, false, ◌||◌, Option, none, some, List, [], ◌∷◌, ltb, ◌==◌, string_eq,
  nat_eq, if◌then◌else◌, any, codes, trim_space, ◌<>◌,
}
use mutandae.Protocol.{Duration}
use mutandae.Protocol.Errors.{
  Error, Result, ok, err, bare, wrap, prefix, lease_not_held, lease_config,
}
use mutandae.Protocol.Iso8601.{millisecond}
use mutandae.Lifecycle.Env.{Call}
use mutandae.Lifecycle.Sweep.{Lease}

pub record Redis (W : Type 0) : Type 0 where
  pub get_key : String → W → Option String
  pub pexpire : String → ℕ → W → ℕ × W
  pub del : String → W → ℕ × W
  pub set_nx : String → String → Duration → Call W Bool
  pub eval : (W → ℕ × W) → Call W ℕ

pub record RedisLeaseManager : Type 0 where
  pub key : String
  pub value : String
  pub ttl : Duration

-- `InMemoryLeaseManager`
abbrev pub in_memory_lease : {W : Type 0} → Lease W
in_memory_lease = record { try_acquire = λ w. (ok true, w); release = λ w. (ok tt, w) }

-- Whether a text has one of the blanks " \t\r\n".
abbrev blank : ℕ → Bool
blank c = c == 32 || c == 9 || c == 13 || c == 10

-- `NewRedisLeaseManager`, for a client that is not nil.
-- The tests of the lifetime.
abbrev pub with_ttl : String → String → Duration → Result RedisLeaseManager
with_ttl k i ttl =
    if ttl == 0
    then err (wrap lease_config "lease TTL must be positive")
    else if ttl / millisecond == 0
    then err (wrap lease_config "lease TTL must be at least one millisecond")
    else ok (record { key = k; value = i; ttl = ttl })

unfoldable pub new_redis_lease_manager : String → String → Duration → Result RedisLeaseManager
new_redis_lease_manager key instance_id ttl =
    let k = trim_space key in
    let i = trim_space instance_id in
    if k == "" || i == "" || any blank (codes (k <> i))
    then err
        (wrap lease_config "lease key and instance id are required and cannot contain whitespace")
    else with_ttl k i ttl

unfoldable pub lease_renew_interval : RedisLeaseManager → Duration
lease_renew_interval m = if m.ttl / 3 == 0 then millisecond else m.ttl / 3

module _ {W : Type 0} (R : Redis W) where
  -- The test of the scripts, on the value of the key.
  abbrev pub owned : RedisLeaseManager → Option String → Bool
  owned m none = false
  owned m (some value) = value == m.value

  unfoldable pub renew_lease_script : RedisLeaseManager → W → ℕ × W
  renew_lease_script m w =
      if owned m (R.get_key m.key w) then R.pexpire m.key (m.ttl / millisecond) w else (0, w)

  unfoldable pub release_lease_script : RedisLeaseManager → W → ℕ × W
  release_lease_script m w = if owned m (R.get_key m.key w) then R.del m.key w else (0, w)

  acquired : Result Bool × W → Result Bool × W
  acquired (ok b, w) = (ok b, w)
  acquired (err e, w) = (err (prefix "acquire Redis lease: " e), w)

  unfoldable pub try_acquire : RedisLeaseManager → Call W Bool
  unfolding acquired
  try_acquire m w = acquired (R.set_nx m.key m.value m.ttl w)

  held_by_script : String → Result ℕ × W → Result (Unit {0}) × W
  held_by_script name (err e, w) = (err (prefix name e), w)
  held_by_script name (ok n, w) = (if n == 1 then ok tt else err (bare lease_not_held), w)

  unfoldable pub renew : RedisLeaseManager → Call W (Unit {0})
  unfolding held_by_script
  renew m w = held_by_script "renew Redis lease: " (R.eval (renew_lease_script m) w)

  unfoldable pub release : RedisLeaseManager → Call W (Unit {0})
  unfolding held_by_script
  release m w = held_by_script "release Redis lease: " (R.eval (release_lease_script m) w)

  -- What the sweeper is given.
  abbrev pub redis_lease : RedisLeaseManager → Lease W
  redis_lease m = record { try_acquire = try_acquire m; release = release m }
