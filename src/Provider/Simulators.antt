-- ===== src/Provider/Simulators.antt =====
-- The simulated clouds of internal/provider: each is an adapter over its own state.
pub mod Aws
pub mod Gcp
pub mod Azure
use mutandae.Prelude.{
  String, Bool, true, false, ◌==◌, string_eq, if◌then◌else◌, trim_space, ◌<>◌, ℕ, ◌*◌,
}
use mutandae.Protocol.{Health, Time, Duration, LifecyclePolicy}
use mutandae.Protocol.Errors.{Error, plain}
use mutandae.Protocol.Iso8601.{format_iso8601_duration, day}
use mutandae.Protocol.Validation.{quote}
use mutandae.Provider.Scope.{demo_prefix}

-- A row of a seed table; the times are those of the simulator's clock.
pub record Seed : Type 0 where
  pub name : String
  pub environment : String
  pub team : String
  pub service : String
  pub purpose : String
  pub criticality : String
  pub policy_days : ℕ
  pub health : Health
  pub expires_at : Time
  pub last_rotated : Time

abbrev pub seed_name : Bool → String → String
seed_name demo name = if demo then demo_prefix <> name else name

abbrev pub policy_of_days : ℕ → LifecyclePolicy
policy_of_days days = record {
  renewal_period = format_iso8601_duration (days * day);
  grace_period = "";
  max_age = "";
  approval_required = false;
}

-- The first of two texts that is not blank, trimmed.
abbrev pub trimmed_or : String → String → String
trimmed_or a b = let t = trim_space a in if t == "" then trim_space b else t

abbrev pub unknown_id : String → String → Error
unknown_id kind id = plain (kind <> ": unknown provider id " <> quote id)

abbrev pub cannot_rotate : String → String → Error
cannot_rotate kind name = plain (kind <> ": " <> name <> " is disabled/retired and cannot rotate")
