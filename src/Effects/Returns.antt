-- ===== src/Effects/Returns.antt =====
-- What a function can return, where it does not throw: one rule for each way to build a function.
use real_tube.Prelude.{String}
use real_tube.Effects.{Result, ok, err, Exec, pure, continue, handle, try_catch, ◌>>=◌}

-- a result that has the property, or an error
abbrev pub Settles {ℓ κ} : {A : Type ℓ} → (A → Type κ) → Result A → Type κ
Settles Q (ok a) = Q a
Settles Q (err message) = Unit

pub record Returns {ℓ κ} {State A : Type ℓ} (Q : A → Type κ) (run : Exec State A)
    : Type (ℓ ⊔ κ) where
  pub at : (start : State) → Settles Q (run start).0

module _ {ℓ κ} {State A : Type ℓ} {Q : A → Type κ} where
  pub Returns-pure : (a : A) → Q a → Returns {State = State} Q (pure a)
  Returns-pure a q = record { at = λ w. q }

  handle-Settles :
      (r : Result A) (handler : String → Exec State A) (s : State)
      → Settles Q r
      → ((message : String) → Returns Q (handler message))
      → Settles Q (handle r handler s).0
  handle-Settles (ok a) handler s q h = q
  handle-Settles (err message) handler s q h = (h message).at s

  pub Returns-catch :
      (run : Exec State A) (handler : String → Exec State A)
      → Returns Q run
      → ((message : String) → Returns Q (handler message))
      → Returns Q (try_catch run handler)
  Returns-catch run handler q h = record {
    at = λ w. handle-Settles (run w).0 handler (run w).1 (q.at w) h;
  }

module _ {ℓ κ} {State A B : Type ℓ} {Q : B → Type κ} where
  continue-Settles :
      (r : Result A) (next : A → Exec State B) (s : State)
      → ((a : A) → Returns Q (next a))
      → Settles Q (continue r next s).0
  continue-Settles (ok a) next s h = (h a).at s
  continue-Settles (err message) next s h = tt

  pub Returns-bind :
      (run : Exec State A) (next : A → Exec State B)
      → ((a : A) → Returns Q (next a))
      → Returns Q (run >>= next)
  Returns-bind run next h = record { at = λ w. continue-Settles (run w).0 next (run w).1 h }
