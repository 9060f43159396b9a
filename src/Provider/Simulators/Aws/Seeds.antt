-- ===== src/Provider/Simulators/Aws/Seeds.antt =====
-- The constructor and `seed` of internal/provider/awssimulator.go.
use mutandae.Prelude.{
  ℕ, ◌+◌, ◌-◌, ◌*◌, String, Bool, false, List, [], ◌∷◌, Dict, insert, string_eq, ◌<>◌, hex_032,
}
use mutandae.Protocol.{Time, healthy, attention}
use mutandae.Protocol.Iso8601.{day}
use mutandae.Provider.Scope.{Scope, is_demo_scope, simulator_constructor_scope}
use mutandae.Provider.Simulators.{Seed, seed_name}
use mutandae.Provider.Simulators.Aws.{AwsSimulator, IamUser}

abbrev aws_seeds : Time → List Seed
aws_seeds now =
    record {
      name = "orders-deployer";
      environment = "production";
      team = "Orders Platform";
      service = "Order deployment";
      purpose = "Deploys order processing workloads";
      criticality = "high";
      policy_days = 90;
      health = attention;
      expires_at = now + 5 * day;
      last_rotated = now - 85 * day;
    }
    ∷ record {
      name = "data-exporting";
      environment = "staging";
      team = "Data Engineering";
      service = "Export pipeline";
      purpose = "Exports catalog data to downstream systems";
      criticality = "high";
      policy_days = 90;
      health = healthy;
      expires_at = now + 18 * day;
      last_rotated = now - 72 * day;
    }
    ∷ record {
      name = "metrics-publisher";
      environment = "production";
      team = "Observability";
      service = "Metrics publishing";
      purpose = "Publishes application metrics";
      criticality = "medium";
      policy_days = 90;
      health = healthy;
      expires_at = now + 75 * day;
      last_rotated = now - 15 * day;
    }
    ∷ []

unfoldable pub aws_user : String → String → ℕ → Seed → IamUser
aws_user account name number seed = record {
  name = name;
  environment = seed.environment;
  team = seed.team;
  service = seed.service;
  purpose = seed.purpose;
  criticality = seed.criticality;
  policy_days = seed.policy_days;
  seed_health = seed.health;
  last_rotated = seed.last_rotated;
  disabled = false;
  key = record {
    key_id = name <> "-infra-key";
    fingerprint = "sha256:" <> hex_032 number;
    location = "iam://" <> account <> "/user/" <> name;
    expires_at = seed.expires_at;
  };
}

-- The loop of `seed`, from the row of this number.
unfoldable pub aws_seed_all : Bool → String → ℕ → List Seed → Dict IamUser → Dict IamUser
unfolding aws_user
aws_seed_all demo account number [] users = users
aws_seed_all demo account number (seed ∷ seeds) users =
    let name = seed_name demo seed.name in
    aws_seed_all demo account (number + 1) seeds
      (insert name (aws_user account name number seed) users)

unfoldable pub new_aws_simulator : String → String → Time → List Scope → AwsSimulator
unfolding aws_seed_all
new_aws_simulator account region now scopes =
    let scope = simulator_constructor_scope scopes in
    record {
      account_id = account;
      region = region;
      now = now;
      scope = scope;
      users = aws_seed_all (is_demo_scope scope) account 1 (aws_seeds now) [];
      seq = 1;
    }
