-- ===== src/Watcher/Traversal/Monad.antt =====
-- Actions on the tables and the provider's world, which may raise.
use notchstave.Common.{Bool, Option, none, some}
use notchstave.Watcher.Rpc.Errors.{RpcError}
use notchstave.Watcher.Rpc.Pool.{Outcome, ok, err}
use notchstave.Watcher.Store.{Store}

-- `integrity_error` is the database's refusal of a second canonical block at a height.
pub data StepError : Type 0 where
  rpc : RpcError → StepError
  reorg_too_deep integrity_error : StepError

pub data Result (A : Type 0) : Type 0 where
  done : A → Result A
  raised : StepError → Result A

module _ {W A : Type 0} where
  abbrev pub return : A → Store → W → Result A × Store × W
  return a s w = (done a, s, w)

  abbrev pub raise : StepError → Store → W → Result A × Store × W
  raise e s w = (raised e, s, w)

  abbrev pub gets : (Store → A) → Store → W → Result A × Store × W
  gets f s w = (done (f s), s, w)

  -- A write that returns a value.
  abbrev pub change : (Store → A × Store) → Store → W → Result A × Store × W
  change f s w = let (a, s') = f s in (done a, s', w)

  -- A request whose error is raised, and one whose error is handled.
  abbrev pub ask : (W → Outcome A × W) → Store → W → Result A × Store × W
  ask f s w =
      let (o, w') = f w in elim o [ ok a ↦ (done a, s, w') | err e ↦ (raised (rpc e), s, w') ]

  abbrev pub attempt : (W → Outcome A × W) → Store → W → Result (Outcome A) × Store × W
  attempt f s w = let (o, w') = f w in (done o, s, w')

module _ {W : Type 0} where
  abbrev pub write : (Store → Store) → Store → W → Result (Unit {0}) × Store × W
  write f s w = (done tt, f s, w)

  abbrev pub insert : (Store → Option (Bool × Store)) → Store → W → Result Bool × Store × W
  insert f s w = elim (f s) [
    | none ↦ (raised integrity_error, s, w)
    | some (written, s') ↦ (done written, s', w)
  ]

infixl 5 ◌>>=◌ ◌>>◌
abbrev pub ◌>>=◌ :
    {W A B : Type 0}
    → (Store → W → Result A × Store × W)
    → (A → Store → W → Result B × Store × W)
    → Store
    → W
    → Result B × Store × W
◌>>=◌ m f s w =
    let (r, s', w') = m s w in elim r [ done a ↦ f a s' w' | raised e ↦ (raised e, s', w') ]

abbrev pub ◌>>◌ :
    {W B : Type 0}
    → (Store → W → Result (Unit {0}) × Store × W)
    → (Store → W → Result B × Store × W)
    → Store
    → W
    → Result B × Store × W
m >> k = m >>= λ _. k
