-- ===== src/Effects/Keeps.antt =====
-- Properties of the state that a function keeps, whether it returns or throws: one rule for each way
-- to build a function.
use real_tube.Prelude.{String, Bool, true, false, Option, none, some, if◌then◌else◌}
use real_tube.Effects.{
  Result, ok, err, Exec, pure, throw, gets, handle, try_catch, finally, continue, ◌>>=◌,
}

pub record Keeps {ℓ} {State A : Type ℓ} (P : State → Type ℓ) (run : Exec State A) : Type ℓ where
  -- from any state with the property, to one that has it
  pub at : (start : State) → P start → P (run start).1

module _ {ℓ} {State A : Type ℓ} {P : State → Type ℓ} where
  pub Keeps-if :
      (b : Bool) (run n : Exec State A) → Keeps P run → Keeps P n → Keeps P (if b then run else n)
  Keeps-if true run n kept other_kept = kept
  Keeps-if false run n kept other_kept = other_kept

  handle-Keeps :
      (r : Result A) (handler : String → Exec State A) (s : State)
      → ((message : String) → Keeps P (handler message))
      → P s
      → P (handle r handler s).1
  handle-Keeps (ok a) handler s handler_kept p = p
  handle-Keeps (err message) handler s handler_kept p = (handler_kept message).at s p

  pub Keeps-catch :
      (run : Exec State A) (handler : String → Exec State A)
      → Keeps P run
      → ((message : String) → Keeps P (handler message))
      → Keeps P (try_catch run handler)
  Keeps-catch run handler kept handler_kept = record {
    at = λ w h. handle-Keeps (run w).0 handler (run w).1 handler_kept (kept.at w h);
  }

  pub Keeps-finally :
      (f : State → State) (run : Exec State A)
      → Keeps P run
      → ((s : State) → P s → P (f s))
      → Keeps P (finally f run)
  Keeps-finally f run kept next_kept = record { at = λ w h. next_kept (run w).1 (kept.at w h) }

module _ {ℓ} {State A B : Type ℓ} {P : State → Type ℓ} where
  continue-Keeps :
      (r : Result A) (next : A → Exec State B) (s : State)
      → ((a : A) → Keeps P (next a))
      → P s
      → P (continue r next s).1
  continue-Keeps (ok a) next s next_kept p = (next_kept a).at s p
  continue-Keeps (err message) next s next_kept p = p

  pub Keeps-bind :
      (run : Exec State A) (next : A → Exec State B)
      → Keeps P run
      → ((a : A) → Keeps P (next a))
      → Keeps P (run >>= next)
  Keeps-bind run next kept next_kept = record {
    at = λ w h. continue-Keeps (run w).0 next (run w).1 next_kept (kept.at w h);
  }

  pub Keeps-option :
      (o : Option A) (run : Exec State B) (next : A → Exec State B)
      → Keeps P run
      → ((a : A) → Keeps P (next a))
      → Keeps P (elim o [ none ↦ run | some a ↦ next a ])
  Keeps-option none run next kept next_kept = kept
  Keeps-option (some a) run next kept next_kept = next_kept a

module _ {ℓ} {State A : Type ℓ} {P : State → Type ℓ} where
  pub Keeps-pure : (a : A) → Keeps P (pure a)
  Keeps-pure a = record { at = λ w h. h }

  pub Keeps-throw : (message : String) → Keeps P (throw {A = A} message)
  Keeps-throw message = record { at = λ w h. h }

  pub Keeps-gets : (f : State → A) → Keeps P (gets f)
  Keeps-gets f = record { at = λ w h. h }
