-- ===== src/Provider/Simulators/Gcp/Seeds.antt =====
-- The constructor and `seed` of internal/provider/gcpsimulator.go.
use mutandae.Prelude.{
  ℕ, ◌+◌, ◌-◌, ◌*◌, String, Bool, false, List, [], ◌∷◌, Dict, insert, string_eq, ◌<>◌, decimal,
  hex_032,
}
use mutandae.Protocol.{Time, healthy, attention}
use mutandae.Protocol.Iso8601.{day}
use mutandae.Provider.Scope.{Scope, is_demo_scope, simulator_constructor_scope}
use mutandae.Provider.Simulators.{Seed, seed_name}
use mutandae.Provider.Simulators.Gcp.{
  GcpSimulator, ServiceAccount, email_of, gcp_location, unique_id_of,
}

abbrev gcp_seeds : Time → List Seed
gcp_seeds now =
    record {
      name = "inventory-broker";
      environment = "production";
      team = "Commerce Infrastructure";
      service = "Stock reconciliation";
      purpose = "Brokers inventory stock reconciliation events";
      criticality = "high";
      policy_days = 90;
      health = attention;
      expires_at = now + 5 * day;
      last_rotated = now - 85 * day;
    }
    ∷ record {
      name = "ml-training-runtime";
      environment = "staging";
      team = "Data Engineering";
      service = "ML training";
      purpose = "Provisions model training runtimes";
      criticality = "high";
      policy_days = 90;
      health = healthy;
      expires_at = now + 18 * day;
      last_rotated = now - 72 * day;
    }
    ∷ record {
      name = "catalog-replication";
      environment = "production";
      team = "Commerce Infrastructure";
      service = "Catalog sync";
      purpose = "Replicates catalog data across zones";
      criticality = "medium";
      policy_days = 90;
      health = healthy;
      expires_at = now + 75 * day;
      last_rotated = now - 15 * day;
    }
    ∷ []

-- The account of a row; row `number` takes the sequence number `number`.
unfoldable pub gcp_account : String → String → ℕ → Seed → ServiceAccount
gcp_account project name number seed =
    let email = email_of project name in
    let key_id = name <> "-service-key-" <> decimal number in
    record {
      unique_id = unique_id_of number;
      name = name;
      email = email;
      environment = seed.environment;
      team = seed.team;
      service = seed.service;
      purpose = seed.purpose;
      criticality = seed.criticality;
      policy_days = seed.policy_days;
      seed_health = seed.health;
      last_rotated = seed.last_rotated;
      disabled = false;
      key = record {
        key_id = key_id;
        fingerprint = "sha256:" <> hex_032 number;
        location = gcp_location project email key_id;
        expires_at = seed.expires_at;
      };
    }

-- The loop of `seed`, from the row of this number, with the sequence number at its end.
unfoldable pub gcp_seed_all :
    Bool → String → ℕ → List Seed → Dict ServiceAccount → Dict ServiceAccount × ℕ
unfolding gcp_account
gcp_seed_all demo project number [] accounts = (accounts, number)
gcp_seed_all demo project number (seed ∷ seeds) accounts =
    gcp_seed_all demo project (number + 1) seeds (
      insert (unique_id_of number) (gcp_account project (seed_name demo seed.name) number seed)
        accounts)

unfoldable pub new_gcp_simulator : String → String → Time → List Scope → GcpSimulator
unfolding gcp_seed_all
new_gcp_simulator project region now scopes =
    let scope = simulator_constructor_scope scopes in
    let (accounts, seq) = gcp_seed_all (is_demo_scope scope) project 1 (gcp_seeds now) [] in
    record {
      project_id = project;
      region = region;
      now = now;
      scope = scope;
      accounts = accounts;
      seq = seq;
    }
