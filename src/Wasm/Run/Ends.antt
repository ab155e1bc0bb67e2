-- ===== src/Wasm/Run/Ends.antt =====
-- What a result may be: the value so, a trap, and as far as it is allowed a panic or a recursion
-- that was cut short.
use deed.Prelude.{◌≡◌, refl, Option, none, some}
use deed.Wasm.Memory.{Memory}
use deed.Wasm.Run.{Trap, State, Result, done, trapped, panicked, out_of_gas, ◌>>=◌, or_trap}
use deed.Wasm.Run.Machine.{map_trap}

pub data Ends {ℓ} {A : Type ℓ} (Panics Stops : Type 0) (P : A → Type 0) : Result A → Type ℓ where
  returns : {a : A} → P a → Ends Panics Stops P (done a)
  traps : {why : Trap} {memory : Memory} → Ends Panics Stops P (trapped why memory)
  panics : Panics → Ends Panics Stops P panicked
  stops : Stops → Ends Panics Stops P out_of_gas

module _ {ℓ} {A : Type ℓ} {Panics Stops : Type 0} where
  pub Ends-bind {κ} :
      {B : Type κ} {P : A → Type 0} {Q : B → Type 0} {r : Result A} {f : A → Result B}
      → Ends Panics Stops P r
      → ((a : A) → P a → Ends Panics Stops Q (f a))
      → Ends Panics Stops Q (r >>= f)
  Ends-bind (returns h) k = k _ h
  Ends-bind traps k = traps
  Ends-bind (panics h) k = panics h
  Ends-bind (stops h) k = stops h

  pub Ends-map_trap :
      {P : A → Type 0} {r : Result A} (f : Trap → Trap)
      → Ends Panics Stops P r
      → Ends Panics Stops P (map_trap f r)
  Ends-map_trap f (returns h) = returns h
  Ends-map_trap f traps = traps
  Ends-map_trap f (panics h) = panics h
  Ends-map_trap f (stops h) = stops h

  pub Ends-weaken :
      {P Q : A → Type 0} {r : Result A}
      → ((a : A) → P a → Q a)
      → Ends Panics Stops P r
      → Ends Panics Stops Q r
  Ends-weaken k (returns h) = returns (k _ h)
  Ends-weaken k traps = traps
  Ends-weaken k (panics h) = panics h
  Ends-weaken k (stops h) = stops h

module _ {A : Type 0} {Panics Stops : Type 0} where
  pub Ends-or_trap :
      (why : Trap) (st : State) (o : Option A)
      → Ends Panics Stops (λ a. o ≡ some a) (or_trap why st o)
  Ends-or_trap why st none = traps
  Ends-or_trap why st (some a) = returns refl
