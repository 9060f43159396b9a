-- ===== src/Lifecycle/Boot.antt =====
-- `newStore` of internal/lifecycle/lifecycle.go: the state is loaded, or discovered once. The
-- options and the watcher are left out; the adapter is there.
pub mod Start
use mutandae.Prelude.{Option, none, some, List, if◌then◌else◌, ◌<>◌}
use mutandae.Protocol.{MachineIdentity, Time}
use mutandae.Protocol.Errors.{Result, ok, err, wrap, errors_is, provider_failure, no_snapshot}
use mutandae.Lifecycle.Env.{Env, Repository, Snapshot}
use mutandae.Lifecycle.Register.{adopt_all}
use mutandae.Lifecycle.Store.{empty_store}
use mutandae.Lifecycle.Store.Monad.{Sys, Action, ask, modify, raise, lift, ◌>>=◌, ◌>>◌}
use mutandae.Lifecycle.Store.Snapshots.{snapshot, restore}

module _ {W : Type 0} (E : Env W) where
  settle_discovery : Time → Result (List MachineIdentity) → Action W (Unit {0})
  settle_discovery now (ok discovered) = adopt_all E discovered now
  settle_discovery now (err e) = raise (wrap provider_failure ("discover: " <> e.text))

  unfoldable pub discover_all : Time → Action W (Unit {0})
  unfolding settle_discovery
  discover_all now = ask E.adapter.discover >>= settle_discovery now

  -- The first save; its error is returned as it is.
  save_first : Repository W → Action W (Unit {0})
  save_first repository s = (ask (repository.save (snapshot s.store)) >>= lift) s

  settle_load : Repository W → Time → Result Snapshot → Action W (Unit {0})
  unfolding save_first
  settle_load repository now (ok loaded) = modify (λ st. restore loaded)
  settle_load repository now (err e) =
      if errors_is e no_snapshot then (discover_all now >> save_first repository) else raise e

  boot_with : Option (Repository W) → Time → Action W (Unit {0})
  unfolding settle_load
  boot_with none now = discover_all now
  boot_with (some repository) now = ask repository.load >>= settle_load repository now

  -- The result is the state of the new store.
  unfoldable pub new_store : Time → W → Result (Unit {0}) × Sys W
  unfolding boot_with discover_all
  new_store now w = boot_with E.repository now (record { store = empty_store; world = w })
