-- ===== src/Lifecycle/Integration/Throttle.antt =====
-- The limit of `allowConnection` over a run of attempts.
use mutandae.Prelude.{
  ◌+◌, ◌≤◌, String, ◌≡◌, refl, sym, ◌∙◌, ap, arith, Bool, true, false, ◌&&◌, Bool-cases, inl, inr,
  ◌⊎◌, List, [], ◌∷◌, ◌++◌, lookup, lookup-insert, leb, ◌==◌, string_eq, eq_iff, eq_refl,
  if◌then◌else◌, length, length-append, filter, filter-append,
}
use mathlib.Core.List.{append_assoc, append-nil}
use mutandae.Protocol.{Time, Duration}
use mutandae.Lifecycle.Integration.{
  IntegrationManager, new_integration_manager, allow_connection, attempts_of, recent,
}

-- The attempt lies in the hour that ends at `t`.
abbrev pub within : Time → Time → Bool
within t attempt = leb attempt t && recent t attempt

abbrev pub Ascending : Time → List (String × Time) → Type 0
Ascending last [] = Unit
Ascending last ((key, now) ∷ calls) = (last ≤ now) × Ascending now calls

filter-recent :
    (now t : Time) (xs : List Time)
    → now ≤ t
    → filter (recent t) (filter (recent now) xs) ≡ filter (recent t) xs
filter-recent now t [] later = refl
filter-recent now t (x ∷ xs) later = ground (arith, filter-recent now t xs later)

length-filter : (p : Time → Bool) (xs : List Time) → length (filter p xs) ≤ length xs
length-filter p [] = omega arith
length-filter p (x ∷ xs) = ground (arith, length-filter p xs)

within-le-recent :
    (t : Time) (xs : List Time) → length (filter (within t) xs) ≤ length (filter (recent t) xs)
within-le-recent t [] = omega arith
within-le-recent t (x ∷ xs) = ground (arith, within-le-recent t xs)

-- The times at which the connections of `key` are admitted.
abbrev pub admitted :
    {W : Type 0} → String → List (String × Time) → IntegrationManager W → List Time
admitted key [] m = []
admitted key ((k, now) ∷ calls) m =
    let rest = admitted key calls (allow_connection k now m).1 in
    if k == key then (if (allow_connection k now m).0 then now ∷ rest else rest) else rest

module _ {W : Type 0} (key : String) where
  abbrev stored : IntegrationManager W → List Time
  stored m = attempts_of (lookup key m.connections)

  -- What the manager keeps stands for all that it admitted, from the last attempt on.
  record Kept (past : List Time) (last : Time) (m : IntegrationManager W) : Type 0 where
    within_bounds : (t : Time) → length (filter (within t) past) ≤ m.max_connections
    agree : (t : Time) → last ≤ t → filter (recent t) past ≡ filter (recent t) (stored m)
    bounded : length (stored m) ≤ m.max_connections

  abbrev kept : Time → IntegrationManager W → List Time
  kept now m = filter (recent now) (stored m)

  -- Both outcomes of an attempt of this key.
  attempted :
      (now : Time) (m : IntegrationManager W)
      → ((allow_connection key now m).0 ≡ false)
          × (stored (allow_connection key now m).1 ≡ kept now m)
        ⊎ ((allow_connection key now m).0 ≡ true)
          × (stored (allow_connection key now m).1 ≡ kept now m ++ now ∷ [])
          × (length (kept now m) + 1 ≤ m.max_connections)
  unfolding allow_connection
  attempted now m = elim (Bool-cases (leb m.max_connections (length (kept now m)))) [
    | inl e ↦ inl (rw e refl, rw e (simp (lookup-insert, eq_refl)))
    | inr e ↦ inr (rw e refl, rw e (simp (lookup-insert, eq_refl)), ground arith)
  ]

  same_limit :
      (k : String) (now : Time) (m : IntegrationManager W)
      → (allow_connection k now m).1.max_connections ≡ m.max_connections
  unfolding allow_connection
  same_limit k now m = ground arith

  -- An attempt of another key.
  passed_by :
      (k : String) (now : Time) (m : IntegrationManager W)
      → (k == key) ≡ false
      → stored (allow_connection k now m).1 ≡ stored m
  unfolding allow_connection
  passed_by k now m other =
      elim (Bool-cases (
        leb m.max_connections
          (length (filter (recent now) (attempts_of (lookup k m.connections)))))) [
            | inl e ↦ rw e (simp (lookup-insert, other))
            | inr e ↦ rw e (simp (lookup-insert, other))
          ]

  Kept-refused :
      (past : List Time) (last now : Time) (m m' : IntegrationManager W)
      → last ≤ now
      → Kept past last m
      → m'.max_connections ≡ m.max_connections
      → stored m' ≡ kept now m
      → Kept past now m'
  Kept-refused past last now m m' later inv same left = record {
    within_bounds = λ t. omega (arith, inv.within_bounds t);
    agree = λ t h.
        inv.agree t (omega arith)
        ∙ (sym (filter-recent now t (stored m) h))
        ∙ (ap (filter (recent t)) (sym left));
    bounded = rw left (omega (arith, inv.bounded, length-filter (recent now) (stored m)));
  }

  Kept-admitted :
      (past : List Time) (last now : Time) (m m' : IntegrationManager W)
      → last ≤ now
      → Kept past last m
      → m'.max_connections ≡ m.max_connections
      → stored m' ≡ kept now m ++ now ∷ []
      → length (kept now m) + 1 ≤ m.max_connections
      → Kept (past ++ now ∷ []) now m'
  Kept-admitted past last now m m' later inv same left room = record {
    within_bounds = within_now;
    agree = agreed;
    bounded = small;
  }
    where
      agreed :
          (t : Time)
          → now ≤ t
          → filter (recent t) (past ++ now ∷ []) ≡ filter (recent t) (stored m')
      agreed t h =
          filter-append (recent t) past (now ∷ [])
          ∙ ap (λ xs. xs ++ filter (recent t) (now ∷ []))
              (inv.agree t (omega arith) ∙ sym (filter-recent now t (stored m) h))
          ∙ sym (filter-append (recent t) (kept now m) (now ∷ []))
          ∙ ap (filter (recent t)) (sym left)

      small : length (stored m') ≤ m'.max_connections
      small = rw left (omega (arith, length-append (kept now m) (now ∷ [])))

      within_now : (t : Time) → length (filter (within t) (past ++ now ∷ [])) ≤ m'.max_connections
      within_now t = elim (Bool-cases (leb now t)) [
        | inl e ↦ omega (
          arith,
          within-le-recent t (past ++ now ∷ []),
          ap length (agreed t (ground arith)),
          length-filter (recent t) (stored m'),
          small,
        )
        | inr e ↦
            rw (filter-append (within t) past (now ∷ []))
              (rw e (omega (arith, length-append (filter (within t) past) [], inv.within_bounds t)))
      ]

  Kept-passed :
      (past : List Time) (last now : Time) (m m' : IntegrationManager W)
      → last ≤ now
      → Kept past last m
      → m'.max_connections ≡ m.max_connections
      → stored m' ≡ stored m
      → Kept past now m'
  Kept-passed past last now m m' later inv same left = record {
    within_bounds = λ t. omega (arith, inv.within_bounds t);
    agree = λ t h. inv.agree t (omega arith) ∙ ap (filter (recent t)) (sym left);
    bounded = rw left (omega (arith, inv.bounded));
  }

  bounded_from :
      (past : List Time) (last : Time) (calls : List (String × Time)) (m : IntegrationManager W)
      → Ascending last calls
      → Kept past last m
      → (t : Time) → length (filter (within t) (past ++ admitted key calls m)) ≤ m.max_connections
  bounded_from past last [] m later inv t = rw append-nil (inv.within_bounds t)
  bounded_from past last ((k, now) ∷ calls) m (later, more) inv t = elim (Bool-cases (k == key)) [
    | inl e ↦
        let own = (eq_iff k key).0 e in
        let m' = (allow_connection key now m).1 in
        let same = same_limit key now m in
        rw (own, eq_refl key)
          (elim (attempted now m) [
            | inl (refused, left) ↦
                let ih =
                  bounded_from past now calls m' more
                    (Kept-refused past last now m m' later inv same left) t in
                rw refused (omega (arith, ih, same))
            | inr (admits, left, room) ↦
                let ih =
                  bounded_from (past ++ now ∷ []) now calls m' more
                    (Kept-admitted past last now m m' later inv same left room) t in
                let shifted = rw (append_assoc past (now ∷ []) (admitted key calls m')) at ih in
                rw admits (omega (arith, shifted, same))
          ])
    | inr e ↦
        let m' = (allow_connection k now m).1 in
        let same = same_limit k now m in
        let ih =
          bounded_from past now calls m' more
            (Kept-passed past last now m m' later inv same (passed_by k now m e)) t in
        rw e (omega (arith, ih, same))
  ]

-- For attempts to connect, of any keys and at times that do not go back, at most five of one key
-- are admitted in the hour that ends at any time, from a fresh manager on.
pub admitted_bounded :
    (W : Type 0) (ttl : Duration) (key : String) (calls : List (String × Time)) (t : Time)
    → Ascending 0 calls
    → length (filter (within t) (admitted key calls (new_integration_manager {W = W} ttl))) ≤ 5
unfolding new_integration_manager lookup
admitted_bounded W ttl key calls t later =
    bounded_from key [] 0 calls (new_integration_manager ttl) later fresh t
  where
    fresh : Kept key [] 0 (new_integration_manager {W = W} ttl)
    fresh = record { within_bounds = λ t. omega arith; agree = λ t h. refl; bounded = omega arith }
