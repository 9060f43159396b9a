-- ===== src/Lifecycle/Operations.antt =====
-- The operations of the store on one request each, and runs of them one after another.
pub mod Rest
pub mod Ledger
pub mod Others
pub mod Revoked
pub mod Terminal
use mutandae.Prelude.{String, List, [], ◌∷◌, trim_space}
use mutandae.Protocol.{
  Time, RegisterRequest, ProvisionRequest, RotateRequest, RetireRequest, DeleteRequest, UseRequest,
}
use mutandae.Lifecycle.Env.{Env}
use mutandae.Lifecycle.Provision.{provision}
use mutandae.Lifecycle.Register.{register}
use mutandae.Lifecycle.Retire.{retire, delete_identity}
use mutandae.Lifecycle.Rotate.{rotate}
use mutandae.Lifecycle.Store.Monad.{Sys}
use mutandae.Lifecycle.Use.{use_credential}

pub data Operation : Type 0 where
  registers : RegisterRequest → Operation
  provisions : ProvisionRequest → Operation
  rotates : RotateRequest → Operation
  retires : RetireRequest → Operation
  deletes : DeleteRequest → Operation
  uses : UseRequest → Operation

module _ {W : Type 0} (E : Env W) where
  -- The state that an operation leaves, whether it succeeds or fails.
  abbrev pub perform : Operation → Time → Sys W → Sys W
  perform (registers req) now s = (register E req now s).1
  perform (provisions req) now s = (provision E req now s).1
  perform (rotates req) now s = (rotate E req now s).1
  perform (retires req) now s = (retire E req now s).1
  perform (deletes req) now s = (delete_identity E req now s).1
  perform (uses req) now s = (use_credential E req now s).1

  abbrev pub perform_all : List (Operation × Time) → Sys W → Sys W
  perform_all [] s = s
  perform_all ((op, now) ∷ rest) s = perform_all rest (perform op now s)
