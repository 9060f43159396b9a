-- ===== src/Lifecycle/Lease/Exclusive.antt =====
-- One owner of a lease at a time.
use mutandae.Prelude.{
  ℕ, ◌/◌, ◌<◌, if◌then◌else◌, arith, trim_space, String, ◌≡◌, ◌≢◌, refl, ◌⊎◌, inl, inr, Bool, true,
  false, Bool-cases, none, some, ◌==◌, string_eq, nat_eq, eq_iff, nat_beq_iff,
}
use mutandae.Protocol.{Duration}
use mutandae.Protocol.Iso8601.{millisecond}
use mutandae.Protocol.Errors.{Error, Result, ok, err}
use mutandae.Lifecycle.Lease.{
  Redis, RedisLeaseManager, owned, with_ttl, new_redis_lease_manager, renew_lease_script,
  release_lease_script, acquired, try_acquire, held_by_script, renew, release,
}

-- What the constructor returns.
pub data Made (m : RedisLeaseManager) : Type 0 where
  made :
      (key instance_id : String) (ttl : Duration)
      → new_redis_lease_manager key instance_id ttl ≡ ok m
      → Made m

-- A chain of tests that comes to a result has passed the first one.
passed_test :
    {A : Type 0} (b : Bool) (e : Error) (r : Result A) (x : A)
    → (if b then err e else r) ≡ ok x
    → (b ≡ false) × (r ≡ ok x)
passed_test true e r x h = cc
passed_test false e r x h = (refl, h)

with_ttl_lem :
    (k i : String) (ttl : Duration) (m : RedisLeaseManager)
    → with_ttl k i ttl ≡ ok m
    → 0 < m.ttl / millisecond
with_ttl_lem k i ttl m h = elim (Bool-cases (ttl == 0)) [
  | inl none_given ↦ cc (h, none_given)
  | inr given ↦ elim (Bool-cases (ttl / millisecond == 0)) [
    | inl short ↦ cc (h, given, short)
    | inr long ↦
        let same : ttl ≡ m.ttl = cc (h, given, long) in
        rw (← same) (positive (ttl / millisecond) long)
  ]
]
  where
    positive : (n : ℕ) → (n == 0) ≡ false → 0 < n
    positive n p = ground arith

-- The constructor accepts a timeout of at least a millisecond only.
Made-ttl : (m : RedisLeaseManager) → Made m → 0 < m.ttl / millisecond
unfolding new_redis_lease_manager
Made-ttl m (made key instance_id ttl h) =
    with_ttl_lem (trim_space key) (trim_space instance_id) ttl m (passed_test _ _ _ m h).1

module _ {W : Type 0} (R : Redis W) where
  -- What Redis documents of one command and of one script; where the client gets an error, the
  -- command may have been carried out or not.
  pub record Lawful : Type 0 where
    -- `PEXPIRE` with a timeout that is not positive deletes the key.
    pub pexpire_keeps :
        (k : String) (t : ℕ) (w : W) → 0 < t → R.get_key k (R.pexpire k t w).1 ≡ R.get_key k w
    pub set_fresh :
        (k v : String) (t : Duration) (w : W)
        → (R.set_nx k v t w).0 ≡ ok true
        → (R.get_key k w ≡ none) × (R.get_key k (R.set_nx k v t w).1 ≡ some v)
    pub set_taken :
        (k v u : String) (t : Duration) (w : W)
        → R.get_key k w ≡ some u
        → R.get_key k (R.set_nx k v t w).1 ≡ some u
    pub eval_answers :
        (script : W → ℕ × W) (w : W) (n : ℕ)
        → (R.eval script w).0 ≡ ok n
        → R.eval script w ≡ (ok (script w).0, (script w).1)
    pub eval_state :
        (script : W → ℕ × W) (w : W)
        → ((R.eval script w).1 ≡ w) ⊎ ((R.eval script w).1 ≡ (script w).1)

  -- What instances and the clock of the server do to the key of a lease without ending the lease of
  -- the instance of `value`.
  pub data Step (key value : String) : W → W → Type 0 where
    acquires :
        (n : RedisLeaseManager) (w : W) → n.key ≡ key → Step key value w (try_acquire R n w).1
    renews :
        (n : RedisLeaseManager) (w : W) → Made n → n.key ≡ key → Step key value w (renew R n w).1
    releases :
        (n : RedisLeaseManager) (w : W)
        → n.key ≡ key
        → n.value ≢ value
        → Step key value w (release R n w).1
    elapses : (w w' : W) → R.get_key key w' ≡ R.get_key key w → Step key value w w'

  pub data Run (key value : String) : W → W → Type 0 where
    done : (w : W) → Run key value w w
    next : {u v w : W} → Step key value u v → Run key value v w → Run key value u w

  -- Another instance gets nothing.
  pub record Refused (n : RedisLeaseManager) (w : W) : Type 0 where
    pub not_acquired : (try_acquire R n w).0 ≢ ok true
    pub not_renewed : (renew R n w).0 ≢ ok tt
    pub not_released : (release R n w).0 ≢ ok tt

  module _ (laws : Lawful) where
    scripted-state : (name : String) (r : Result ℕ × W) → (held_by_script R name r).1 ≡ r.1
    unfolding held_by_script
    scripted-state name (ok n, w) = refl
    scripted-state name (err e, w) = refl

    acquired-state : (r : Result Bool × W) → (acquired R r).1 ≡ r.1
    unfolding acquired
    acquired-state (ok b, w) = refl
    acquired-state (err e, w) = refl

    not_owned :
        (n : RedisLeaseManager) (value : String) → n.value ≢ value → owned R n (some value) ≡ false
    not_owned n value other = elim (Bool-cases (value == n.value)) [
      | inl same ↦ absurd (other (cc ((eq_iff value n.value).0 same)))
      | inr e ↦ e
    ]

    renew_script_keeps :
        (n : RedisLeaseManager) (w : W)
        → Made n
        → R.get_key n.key (renew_lease_script R n w).1 ≡ R.get_key n.key w
    unfolding renew_lease_script
    renew_script_keeps n w m = elim (Bool-cases (owned R n (R.get_key n.key w))) [
      | inl e ↦ rw e (laws.pexpire_keeps n.key _ w (Made-ttl n m))
      | inr e ↦ rw e refl
    ]

    renew_keeps :
        (n : RedisLeaseManager) (w : W)
        → Made n
        → R.get_key n.key (renew R n w).1 ≡ R.get_key n.key w
    unfolding renew
    renew_keeps n w m =
        let named = scripted-state "renew Redis lease: " (R.eval (renew_lease_script R n) w) in
        elim (laws.eval_state (renew_lease_script R n) w) [
          | inl e ↦ cc (named, e)
          | inr e ↦ cc (named, e, renew_script_keeps n w m)
        ]

    release_script_idle :
        (n : RedisLeaseManager) (value : String) (w : W)
        → n.value ≢ value
        → R.get_key n.key w ≡ some value
        → release_lease_script R n w ≡ (0, w)
    unfolding release_lease_script
    release_script_idle n value w other h = rw (h, not_owned n value other) refl

    renew_script_idle :
        (n : RedisLeaseManager) (value : String) (w : W)
        → n.value ≢ value
        → R.get_key n.key w ≡ some value
        → renew_lease_script R n w ≡ (0, w)
    unfolding renew_lease_script
    renew_script_idle n value w other h = rw (h, not_owned n value other) refl

    release_keeps :
        (n : RedisLeaseManager) (value : String) (w : W)
        → n.value ≢ value
        → R.get_key n.key w ≡ some value
        → R.get_key n.key (release R n w).1 ≡ some value
    unfolding release
    release_keeps n value w other h =
        let named = scripted-state "release Redis lease: " (R.eval (release_lease_script R n) w) in
        elim (laws.eval_state (release_lease_script R n) w) [
          | inl e ↦ cc (named, e, h)
          | inr e ↦ cc (named, e, h, release_script_idle n value w other h)
        ]

    acquire_keeps :
        (n : RedisLeaseManager) (value : String) (w : W)
        → R.get_key n.key w ≡ some value
        → R.get_key n.key (try_acquire R n w).1 ≡ some value
    unfolding try_acquire
    acquire_keeps n value w h = cc (
      acquired-state (R.set_nx n.key n.value n.ttl w),
      laws.set_taken n.key n.value value n.ttl w h,
    )

    Step-keeps :
        (key value : String) (u v : W)
        → Step key value u v
        → R.get_key key u ≡ some value
        → R.get_key key v ≡ some value
    Step-keeps key value u v (acquires n _ e) h = cc (e, acquire_keeps n value u (cc (e, h)))
    Step-keeps key value u v (renews n _ m e) h = cc (e, h, renew_keeps n u m)
    Step-keeps key value u v (releases n _ e other) h =
        cc (e, release_keeps n value u other (cc (e, h)))
    Step-keeps key value u v (elapses _ _ e) h = cc (e, h)

    Run-keeps :
        (key value : String) (u v : W)
        → Run key value u v
        → R.get_key key u ≡ some value
        → R.get_key key v ≡ some value
    Run-keeps key value u v (done _) h = h
    Run-keeps key value u v (next s r) h = Run-keeps key value _ v r (Step-keeps key value u _ s h)

    held_once :
        (name : String) (r : Result ℕ × W) → (held_by_script R name r).0 ≡ ok tt → r.0 ≡ ok 1
    unfolding held_by_script
    held_once name (err e, w) h = cc
    held_once name (ok n, w) h = elim (Bool-cases (n == 1)) [
      | inl one ↦ cc ((nat_beq_iff n 1).0 one)
      | inr other ↦ cc (h, other)
    ]

    idle_refused :
        (name : String) (script : W → ℕ × W) (w : W)
        → script w ≡ (0, w)
        → (held_by_script R name (R.eval script w)).0 ≢ ok tt
    idle_refused name script w idle h =
        let one = held_once name (R.eval script w) h in
        cc (one, idle, laws.eval_answers script w 1 one)

    acquired-ok : (r : Result Bool × W) (b : Bool) → (acquired R r).0 ≡ ok b → r.0 ≡ ok b
    unfolding acquired
    acquired-ok (ok c, w) b h = h
    acquired-ok (err e, w) b h = cc

    refused_lem :
        (n : RedisLeaseManager) (value : String) (w : W)
        → n.value ≢ value
        → R.get_key n.key w ≡ some value
        → Refused n w
    unfolding try_acquire renew release
    refused_lem n value w other h = record {
      not_acquired = λ p.
          let fresh = laws.set_fresh n.key n.value n.ttl w (acquired-ok _ true p) in
          cc (h, fresh.0);
      not_renewed =
          idle_refused "renew Redis lease: " (renew_lease_script R n) w
            (renew_script_idle n value w other h);
      not_released =
          idle_refused "release Redis lease: " (release_lease_script R n) w
            (release_script_idle n value w other h);
    }

    -- For a Redis that does what it documents: after an instance has acquired the lease, and
    -- after any acquisitions, releases and renewals by any instances, its own release left out
    -- and the renewals by those that the constructor has made, and any passing of time that does
    -- not end the lease, the key still has that instance's value, and no instance of another
    -- value acquires, renews or releases the lease.
    pub lease_exclusive :
        (m n : RedisLeaseManager) (u v : W)
        → (try_acquire R m u).0 ≡ ok true
        → Run m.key m.value (try_acquire R m u).1 v
        → n.key ≡ m.key
        → n.value ≢ m.value
        → (R.get_key m.key v ≡ some m.value) × Refused n v
    unfolding try_acquire
    lease_exclusive m n u v got run e other =
        let r = R.set_nx m.key m.value m.ttl u in
        let fresh = laws.set_fresh m.key m.value m.ttl u (acquired-ok r true got) in
        let kept = Run-keeps m.key m.value _ v run (cc (fresh.1, acquired-state r)) in
        (kept, refused_lem n m.value v other (cc (e, kept)))
