-- ===== src/Lifecycle/Store/Numbers.antt =====
-- The numbers that `addEvent` gives to the events of a trail.
use mutandae.Prelude.{
  ℕ, ◌+◌, ◌≤◌, ◌<◌, String, ◌≡◌, refl, sym, ap, ◌∙◌, inl, inr, false, Bool-cases, List, [], ◌∷◌,
  ◌++◌, ◌==◌, string_eq, eq_iff, arith,
}
use mathlib.Core.List.{append_assoc, append-nil}
use mutandae.Protocol.{LifecycleEvent}
use mutandae.Lifecycle.Store.{Draft, append_event, event_of, event_id, events_of}
use mutandae.Lifecycle.Store.Monad.{Store}
use mutandae.Lifecycle.Store.Tables.{events_of-append_event}

-- The events of `k` have numbers above `lo`, ascending, and at most `hi`.
abbrev pub Numbered : String → ℕ → ℕ → List LifecycleEvent → Type 0
Numbered k lo hi [] = lo ≤ hi
Numbered k lo hi (e ∷ es) =
    (n : ℕ) × (lo < n) × (e.id ≡ event_id n) × (e.identity_id ≡ k) × Numbered k n hi es

pub Numbered-weaken :
    (k : String) (lo hi hi' : ℕ) (es : List LifecycleEvent)
    → hi ≤ hi'
    → Numbered k lo hi es
    → Numbered k lo hi' es
Numbered-weaken k lo hi hi' [] le h = omega arith
Numbered-weaken k lo hi hi' (e ∷ es) le (n, above, id, own, h) =
    (n, above, id, own, Numbered-weaken k n hi hi' es le h)

pub Numbered-extend :
    (k : String) (lo hi : ℕ) (es : List LifecycleEvent) (e : LifecycleEvent)
    → e.id ≡ event_id (hi + 1)
    → e.identity_id ≡ k
    → Numbered k lo hi es
    → Numbered k lo (hi + 1) (es ++ e ∷ [])
Numbered-extend k lo hi [] e id own h = (hi + 1, omega arith, id, own, omega arith)
Numbered-extend k lo hi (x ∷ es) e id own (n, above, idx, ownx, h) =
    (n, above, idx, ownx, Numbered-extend k n hi es e id own h)

-- The trail of `k` in `st` begins with that in `old`, and what follows is numbered anew.
pub record Grown (k : String) (old st : Store) : Type 0 where
  pub extra : List LifecycleEvent
  pub trail : events_of k st ≡ events_of k old ++ extra
  pub numbered : Numbered k old.next_event st.next_event extra

pub Grown-start : (k : String) (st : Store) → Grown k st st
Grown-start k st = record { extra = []; trail = sym (append-nil _); numbered = omega arith }

module _ (k : String) (old : Store) (d : Draft) (st : Store) where
  Grown-own : d.identity_id ≡ k → Grown k old st → Grown k old (append_event d st)
  Grown-own own h = record {
    extra = h.extra ++ event_of (st.next_event + 1) d ∷ [];
    trail =
        events_of-append_event k st d
        ∙ (rw ((eq_iff d.identity_id k).1 own) (
            ap (λ es. es ++ event_of (st.next_event + 1) d ∷ []) h.trail
            ∙ append_assoc (events_of k old) h.extra _));
    numbered = Numbered-extend k old.next_event st.next_event h.extra _ refl own h.numbered;
  }

  Grown-other : (d.identity_id == k) ≡ false → Grown k old st → Grown k old (append_event d st)
  Grown-other ne h = record {
    extra = h.extra;
    trail = events_of-append_event k st d ∙ (rw ne h.trail);
    numbered =
        Numbered-weaken k old.next_event st.next_event (st.next_event + 1) h.extra (omega arith)
          h.numbered;
  }

  pub Grown-append : Grown k old st → Grown k old (append_event d st)
  Grown-append h = elim (Bool-cases (d.identity_id == k)) [
    | inl own ↦ Grown-own ((eq_iff d.identity_id k).0 own) h
    | inr ne ↦ Grown-other ne h
  ]

-- Every trail is numbered.
pub record Ledger (st : Store) : Type 0 where
  pub at : (k : String) → Numbered k 0 st.next_event (events_of k st)

-- `st` has the trail of `k` from `old`.
pub Numbered-Grown :
    (k : String) (old st : Store)
    → Numbered k 0 old.next_event (events_of k old)
    → Grown k old st
    → Numbered k 0 st.next_event (events_of k st)
Numbered-Grown k old st h g = rw g.trail (joined 0 (events_of k old) h)
  where
    joined :
        (lo : ℕ) (es : List LifecycleEvent)
        → Numbered k lo old.next_event es
        → Numbered k lo st.next_event (es ++ g.extra)
    joined lo [] le = lower lo g.extra le g.numbered
      where
        lower :
            (lo : ℕ) (es : List LifecycleEvent)
            → lo ≤ old.next_event
            → Numbered k old.next_event st.next_event es
            → Numbered k lo st.next_event es
        lower lo [] le h = omega arith
        lower lo (e ∷ es) le (n, above, id, own, h) = (n, omega arith, id, own, h)
    joined lo (e ∷ es) (n, above, id, own, h) = (n, above, id, own, joined n es h)
