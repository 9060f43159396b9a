-- ===== src/Protocol/Transitions/Reach.antt =====
-- Runs of the lifecycle state machine.
use mathlib.Core.Path.{subst}
use mutandae.Prelude.{String, ◌≡◌, ◌≢◌, refl, sym, ◌∙◌, true, ◌↔◌, ap}
use mutandae.Protocol.Enums.{State, registered, active, renewing, retired, unknown}
use mutandae.Protocol.Transitions.{can_transition}

-- `b` is reached from `a` by allowed transitions.
pub data Reach : State → State → Type 0 where
  stay : {a : State} → Reach a a
  step : {a b c : State} → Reach a b → can_transition b c ≡ true → Reach a c

stuck : (b : State) → can_transition retired b ≢ true
unfolding can_transition
stuck b p = cc

-- The state is one of `known_states`.
abbrev pub Known : State → Type 0
Known (unknown t) = ⊥
Known _ = Unit

Known-next : (b c : State) → can_transition b c ≡ true → Known c
unfolding can_transition
Known-next registered active p = tt
Known-next active renewing p = tt
Known-next active retired p = tt
Known-next renewing active p = tt
Known-next renewing retired p = tt
Known-next registered (unknown t) p = cc
Known-next active (unknown t) p = cc
Known-next renewing (unknown t) p = cc
Known-next retired (unknown t) p = cc
Known-next (unknown u) (unknown t) p = cc
Known-next _ registered p = tt
Known-next _ active p = tt
Known-next _ renewing p = tt
Known-next _ retired p = tt

reached-Known : (b : State) → Reach registered b → Known b
reached-Known b stay = tt
reached-Known b (step {b = c} r p) = Known-next c b p

Known-reached : (b : State) → Known b → Reach registered b
unfolding can_transition
Known-reached registered h = stay
Known-reached active h = step stay refl
Known-reached renewing h = step {b = active} (step stay refl) refl
Known-reached retired h = step {b = active} (step stay refl) refl
Known-reached (unknown t) h = absurd h

retirable : (b : State) → Known b → Reach b retired
unfolding can_transition
retirable registered h = step {b = active} (step stay refl) refl
retirable active h = step stay refl
retirable renewing h = step stay refl
retirable retired h = stay
retirable (unknown t) h = absurd h

final : (b : State) → Reach retired b → b ≡ retired
final b stay = refl
final b (step {b = c} r p) = absurd (left c (final c r) p)
  where
    left : (c : State) → c ≡ retired → can_transition c b ≢ true
    left c e p = stuck b (sym (ap (λ x. can_transition x b) e) ∙ p)

lost : (t : String) (b : State) → Reach (unknown t) b → b ≡ unknown t
unfolding can_transition
lost t b stay = refl
lost t b (step {b = c} r p) = absurd (left c (lost t c r) p)
  where
    left : (c : State) → c ≡ unknown t → can_transition c b ≢ true
    left c e p = never (sym (ap (λ x. can_transition x b) e) ∙ p)
      where
        never : can_transition (unknown t) b ≢ true
        never p = cc

retirable-Known : (b : State) → Reach b retired → Known b
retirable-Known (unknown t) r = cc (lost t retired r)
retirable-Known registered r = tt
retirable-Known active r = tt
retirable-Known renewing r = tt
retirable-Known retired r = tt

final_iff : (b : State) → b ≡ retired → Reach retired b
final_iff b e = subst (Reach retired) (sym e) stay

-- By allowed transitions exactly the known states are reached from registration, retirement is
-- reached from exactly the known states, and from retirement only itself is reached.
pub can_transition_lem :
    (b : State)
    → (Reach registered b ↔ Known b)
      × (Reach b retired ↔ Known b)
      × (Reach retired b ↔ (b ≡ retired))
can_transition_lem b =
    ((reached-Known b, Known-reached b), (retirable-Known b, retirable b), (final b, final_iff b))
