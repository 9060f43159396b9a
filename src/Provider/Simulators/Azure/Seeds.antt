-- ===== src/Provider/Simulators/Azure/Seeds.antt =====
-- The constructor and `seed` of internal/provider/azuresimulator.go.
use mutandae.Prelude.{
  ℕ, ◌+◌, ◌-◌, ◌*◌, String, Bool, false, ◌&&◌, List, [], ◌∷◌, Dict, insert, ◌==◌, string_eq, ◌<>◌,
  hex_032,
}
use mutandae.Protocol.{Time, healthy, attention}
use mutandae.Protocol.Iso8601.{day}
use mutandae.Provider.Scope.{Scope, simulator_constructor_scope, demo_scope_pattern, is_empty}
use mutandae.Provider.Simulators.{Seed, seed_name}
use mutandae.Provider.Simulators.Azure.{AppRegistration, AzureSimulator, object_id_of}

abbrev azure_seeds : Time → List Seed
azure_seeds now =
    record {
      name = "payments-api";
      environment = "production";
      team = "Payments Platform";
      service = "Payment authorization";
      purpose = "Authorizes payment processing workloads";
      criticality = "critical";
      policy_days = 90;
      health = attention;
      expires_at = now + 5 * day;
      last_rotated = now - 85 * day;
    }
    ∷ record {
      name = "data-pipeline";
      environment = "staging";
      team = "Data Engineering";
      service = "Warehouse ingestion";
      purpose = "Ingests catalog data into the warehouse";
      criticality = "high";
      policy_days = 90;
      health = healthy;
      expires_at = now + 18 * day;
      last_rotated = now - 72 * day;
    }
    ∷ record {
      name = "inventory-sync";
      environment = "production";
      team = "Commerce Infrastructure";
      service = "Stock reconciliation";
      purpose = "Reconciles stock across storefronts";
      criticality = "high";
      policy_days = 90;
      health = healthy;
      expires_at = now + 75 * day;
      last_rotated = now - 15 * day;
    }
    ∷ record {
      name = "legacy-reporting";
      environment = "production";
      team = "Finance Systems";
      service = "Nightly reporting";
      purpose = "Generates nightly finance reports";
      criticality = "medium";
      policy_days = 90;
      health = attention;
      expires_at = now - 3 * day;
      last_rotated = now - 93 * day;
    }
    ∷ []

unfoldable pub azure_app : String → ℕ → Seed → AppRegistration
azure_app name number seed = record {
  object_id = object_id_of number;
  name = name;
  display_name = name;
  environment = seed.environment;
  team = seed.team;
  service = seed.service;
  purpose = seed.purpose;
  criticality = seed.criticality;
  policy_days = seed.policy_days;
  seed_health = seed.health;
  last_rotated = seed.last_rotated;
  disabled = false;
  cred = record {
    key_id = seed.name <> "-initial-secret";
    fingerprint = "sha256:" <> hex_032 number;
    location = "keyvault://mutandae-vault/secrets/" <> seed.name;
    expires_at = seed.expires_at;
  };
}

-- The loop of `seed`, from the row of this number.
unfoldable pub azure_seed_all : Bool → ℕ → List Seed → Dict AppRegistration → Dict AppRegistration
unfolding azure_app
azure_seed_all demo number [] apps = apps
azure_seed_all demo number (seed ∷ seeds) apps =
    azure_seed_all demo (number + 1) seeds
      (insert (object_id_of number) (azure_app (seed_name demo seed.name) number seed) apps)

-- The scope is the demo scope itself.
abbrev only_demo : List String → List String → Bool
only_demo (p ∷ []) deny = p == demo_scope_pattern && is_empty deny
only_demo _ deny = false

unfoldable pub new_azure_simulator : String → Time → List Scope → AzureSimulator
unfolding azure_seed_all
new_azure_simulator tenant now scopes =
    let scope = simulator_constructor_scope scopes in
    record {
      tenant_id = tenant;
      now = now;
      scope = scope;
      apps = azure_seed_all (only_demo scope.allow scope.deny) 1 (azure_seeds now) [];
      seq = 1;
    }
