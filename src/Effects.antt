-- ===== src/Effects.antt =====
-- Asynchronous functions that may throw. What was done before an exception stays done, so the state
-- comes back beside the error too. `State` is the state, and an error is its message.
pub mod Keeps
pub mod Returns
use real_tube.Prelude.{String, Bool, true, false}

pub data Result {ℓ} (A : Type ℓ) : Type ℓ where
  ok : A → Result A
  err : String → Result A

abbrev pub Exec {ℓ} : Type ℓ → Type ℓ → Type ℓ
Exec State A = State → Result A × State

module _ {ℓ} {State A : Type ℓ} where
  abbrev pub pure : A → Exec State A
  pure a w = (ok a, w)

  abbrev pub throw : String → Exec State A
  throw message w = (err message, w)

  abbrev pub gets : (State → A) → Exec State A
  gets look w = (ok (look w), w)

  -- the handler of a `catch`, once the body has settled
  abbrev pub handle : Result A → (String → Exec State A) → Exec State A
  handle (ok a) h s = (ok a, s)
  handle (err message) h s = h message s

  -- try { m } catch (err) { h(err) }
  abbrev pub try_catch : Exec State A → (String → Exec State A) → Exec State A
  try_catch m h s = let (r, s') = m s in handle r h s'

  -- try { m } finally { f }, for an `f` that only writes the state
  abbrev pub finally : (State → State) → Exec State A → Exec State A
  finally f m s = let (r, s') = m s in (r, f s')

abbrev pub modify {ℓ} : {State : Type ℓ} → (State → State) → Exec {ℓ} State (Unit {ℓ})
modify f s = (ok tt, f s)

module _ {ℓ} {State A B : Type ℓ} where
  abbrev pub continue : Result A → (A → Exec State B) → Exec State B
  continue (ok a) next w = next a w
  continue (err message) next w = (err message, w)

  infixl 10 ◌>>=◌ ◌>>◌
  abbrev pub ◌>>=◌ : Exec State A → (A → Exec State B) → Exec State B
  ◌>>=◌ run next w = let (answer, w') = run w in continue answer next w'

  abbrev pub ◌>>◌ : Exec State A → Exec State B → Exec State B
  first >> second = first >>= λ _. second
