-- ===== src/Lifecycle/Integration/Held.antt =====
-- The invariant of the manager's sessions.
use mutandae.Prelude.{
  ℕ, zero, suc, ◌-◌, ◌/◌, ◌%◌, ◌≤◌, ◌<◌, String, ◌≡◌, arith, Bool-cases, inl, inr, List, [], ◌∷◌,
  All, length, ltb, nat_eq, digit, hex, hex_digit, hex_letter, ◌<>◌,
}
use Prim.Native.Char.{code}
use mutandae.Protocol.Errors.{Result, ok, err}
use mutandae.Lifecycle.Integration.{
  IntegrationSession, Service, IntegrationManager, random_id, random_text,
}
use mutandae.Lifecycle.Integration.Guarding.{IsAscii}

-- A session is stored under its id, its view tells its id and its expiry, and its token is ASCII.
pub record Owned {W : Type 0} (id : String) (s : IntegrationSession W) : Type 0 where
  pub own : s.id ≡ id
  pub shown : s.public_view.id ≡ id
  pub until : s.public_view.expires_at ≡ s.expires_at
  pub ascii : IsAscii s.csrf

pub record Held {W : Type 0} (m : IntegrationManager W) : Type 0 where
  pub few : length m.sessions ≤ m.max_sessions
  pub owned : All (λ e. Owned e.0 e.1) m.sessions

digit-ascii : (n : ℕ) → code (digit n) < 0x80
digit-ascii zero = omega arith
digit-ascii (suc zero) = omega arith
digit-ascii (suc (suc zero)) = omega arith
digit-ascii (suc (suc (suc zero))) = omega arith
digit-ascii (suc (suc (suc (suc zero)))) = omega arith
digit-ascii (suc (suc (suc (suc (suc zero))))) = omega arith
digit-ascii (suc (suc (suc (suc (suc (suc zero)))))) = omega arith
digit-ascii (suc (suc (suc (suc (suc (suc (suc zero))))))) = omega arith
digit-ascii (suc (suc (suc (suc (suc (suc (suc (suc zero)))))))) = omega arith
digit-ascii (suc (suc (suc (suc (suc (suc (suc (suc (suc n))))))))) = omega arith

letter-ascii : (n : ℕ) → code (hex_letter n) < 0x80
letter-ascii zero = omega arith
letter-ascii (suc zero) = omega arith
letter-ascii (suc (suc zero)) = omega arith
letter-ascii (suc (suc (suc zero))) = omega arith
letter-ascii (suc (suc (suc (suc zero)))) = omega arith
letter-ascii (suc (suc (suc (suc (suc n))))) = omega arith

hex_digit-ascii : (n : ℕ) → code (hex_digit n) < 0x80
hex_digit-ascii n = elim (Bool-cases (ltb n 10)) [
  | inl e ↦ rw e (digit-ascii n)
  | inr e ↦ rw e (letter-ascii (n - 10))
]

hex-IsAscii : (bs : List ℕ) → IsAscii (hex bs)
unfolding hex
hex-IsAscii [] = tt
hex-IsAscii (b ∷ bs) = (hex_digit-ascii (b / 16 % 16), (hex_digit-ascii (b % 16), hex-IsAscii bs))

random_text-IsAscii :
    {W : Type 0} (r : Result (List ℕ) × W) (text : String)
    → (random_text "csrf" r).0 ≡ ok text
    → IsAscii text
random_text-IsAscii (ok raw, w) text h =
    rw (← plain)
      (omega arith, (omega arith, (omega arith, (omega arith, (omega arith, hex-IsAscii raw)))))
  where
    plain : "csrf" <> "-" <> hex raw ≡ text
    plain = cc
random_text-IsAscii (err e, w) text h = cc

pub random_id-IsAscii :
    {W : Type 0} (S : Service W) (w : W) (text : String)
    → (random_id S "csrf" w).0 ≡ ok text
    → IsAscii text
unfolding random_id
random_id-IsAscii S w text h = random_text-IsAscii (S.random_bytes w) text h
