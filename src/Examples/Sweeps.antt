-- ===== src/Examples/Sweeps.antt =====
-- The properties of the sweeper, on a concrete store.
use mutandae.Prelude.{
  ℕ, ◌⊎◌, ◌≤◌, some, ◌+◌, ◌*◌, ◌≡◌, refl, lookup, insert, length, [], false, values,
}
use mutandae.Protocol.{Time, active}
use mutandae.Protocol.Errors.{Error, plain}
use mutandae.Protocol.Iso8601.{day, hour}
use mutandae.Lifecycle.Queries.{list, compute_urgency}
use mutandae.Lifecycle.Operations.Others.{SameAt}
use mutandae.Lifecycle.Store.AtRest.{AtRest}
use mutandae.Lifecycle.Sweep.{Stop, Sweeper, sweep_leader}
use mutandae.Lifecycle.Sweep.Accounts.{sweep_leader_lem}
use mutandae.Lifecycle.Sweep.Spared.{sweep_leader_spares}
use mutandae.Examples.{cloud, holding}
use mutandae.Examples.Stores.{whole}

abbrev hourly : Sweeper
hourly = record { interval = hour; last_attempt = []; sweep_seq = 0 }

abbrev ticks : ℕ → Time
ticks n = 50 * day + n

-- The process is shut down behind the first rotation.
abbrev shutdown : Stop
shutdown = some (1, plain "context canceled")

sweep_leader_lem_example :
    ((sweep_leader cloud ticks shutdown (50 * day) hourly (holding active)).0.0.considered
        + (sweep_leader cloud ticks shutdown (50 * day) hourly (holding active)).0.0.skipped
      ≡ length (list false (holding active).store))
    × (((sweep_leader cloud ticks shutdown (50 * day) hourly (holding active)).0.0.rotated
            + length
                (sweep_leader cloud ticks shutdown (50 * day) hourly (holding active)).0.0.failures
          ≡ (sweep_leader cloud ticks shutdown (50 * day) hourly (holding active)).0.0.considered)
        ⊎ ((n : ℕ) × (e : Error) × (shutdown ≡ some (n, e))
            × ((sweep_leader cloud ticks shutdown (50 * day) hourly (holding active)).0.1 ≡ some e)
            × ((sweep_leader cloud ticks shutdown (50 * day) hourly (holding active)).0.0.rotated
                  + length
                      (sweep_leader cloud ticks shutdown
                        (50 * day)
                        hourly
                        (holding active)).0.0.failures
                ≤ (sweep_leader cloud ticks shutdown
                    (50 * day)
                    hourly
                    (holding active)).0.0.considered)))
sweep_leader_lem_example = sweep_leader_lem cloud ticks shutdown (50 * day) hourly (holding active)

-- It is due in 35 days.
sweep_leader_spares_example :
    AtRest (sweep_leader cloud ticks shutdown (5 * day) hourly (holding active)).2.store
    × SameAt "billing"
        (holding active).store
        (sweep_leader cloud ticks shutdown (5 * day) hourly (holding active)).2.store
unfolding list compute_urgency insert values lookup
sweep_leader_spares_example =
    sweep_leader_spares cloud ticks shutdown (5 * day) hourly (holding active) "billing"
      whole.at_rest ((λ own. refl), tt)
