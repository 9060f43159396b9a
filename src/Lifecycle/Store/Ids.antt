-- ===== src/Lifecycle/Store/Ids.antt =====
-- The ids of the events of a trail.
use mutandae.Prelude.{
  ℕ, ◌≤◌, String, ◌≡◌, ◌≢◌, ap, sym, ◌∙◌, arith, List, [], ◌∷◌, All, numeral, numeral-decimal_03,
}
use mutandae.Protocol.{LifecycleEvent}
use mutandae.Lifecycle.Store.{event_id, events_of}
use mutandae.Lifecycle.Store.Monad.{Store}
use mutandae.Lifecycle.Store.Numbers.{Numbered, Ledger}

-- No two of the events have one id.
abbrev pub DistinctIds : List LifecycleEvent → Type 0
DistinctIds [] = Unit
DistinctIds (e ∷ es) = All (λ f. e.id ≢ f.id) es × DistinctIds es

-- What follows the four letters before a number.
number_part : String → String
number_part (String.◌∷◌ a (String.◌∷◌ b (String.◌∷◌ c (String.◌∷◌ d s)))) = s
number_part s = ""

event_id-injective : (m n : ℕ) → event_id m ≡ event_id n → m ≡ n
unfolding number_part
event_id-injective m n e =
    sym (numeral-decimal_03 m) ∙ ap (λ s. numeral 0 (number_part s)) e ∙ numeral-decimal_03 n

Numbered-apart :
    (k : String) (n lo hi : ℕ) (e : LifecycleEvent) (es : List LifecycleEvent)
    → e.id ≡ event_id n
    → n ≤ lo
    → Numbered k lo hi es
    → All (λ f. e.id ≢ f.id) es
Numbered-apart k n lo hi e [] id le h = tt
Numbered-apart k n lo hi e (f ∷ es) id le (m, above, idf, own, h) = (
  (λ same. less_irrefl (event_id-injective n m (sym id ∙ same ∙ idf))),
  Numbered-apart k n m hi e es id (omega arith) h,
)
  where
    less_irrefl : n ≢ m
    less_irrefl p = omega arith

DistinctIds-Numbered :
    (k : String) (lo hi : ℕ) (es : List LifecycleEvent) → Numbered k lo hi es → DistinctIds es
DistinctIds-Numbered k lo hi [] h = tt
DistinctIds-Numbered k lo hi (e ∷ es) (n, above, id, own, h) =
    (Numbered-apart k n n hi e es id (omega arith) h, DistinctIds-Numbered k n hi es h)

pub Ledger-DistinctIds : (k : String) (st : Store) → Ledger st → DistinctIds (events_of k st)
Ledger-DistinctIds k st h = DistinctIds-Numbered k 0 st.next_event (events_of k st) (h.at k)
