-- ===== src/Bench/Actions.antt =====
-- bench/bench_dbn.cpp: code that changes the system, may throw and may run on. The state of the system
-- comes back after a throw too.
use trading_engine_hh.Base.{◌≡◌, refl, Result, ok, err, Run, done, and_then}
use trading_engine_hh.Prologue.{DbnError}
use trading_engine_hh.MmapDbnReader.Owned.{OpenError, refusing}

abbrev pub Action : Type 0 → Type 0 → Type 0
Action W A = W → Run (Result OpenError A × W)

module _ {W A : Type 0} where
  abbrev pub pure : A → Action W A
  pure a w = done (ok a, w)

  -- A call that leaves the system as it is.
  abbrev pub call : Run (Result DbnError A) → Action W A
  call u w = and_then u (λ o. done (refusing o, w))

infixl 5 ◌>>=◌ ◌>>◌
abbrev pub ◌>>=◌ : {W A B : Type 0} → Action W A → (A → Action W B) → Action W B
◌>>=◌ m k w = and_then (m w) (λ (o, w'). elim o [ err x ↦ done (err x, w') | ok a ↦ k a w' ])

abbrev pub ◌>>◌ : {W A B : Type 0} → Action W A → Action W B → Action W B
m >> n = m >>= λ _. n

-- In every state of the system the action ends with the result given, in a state that `safe` relates to it.
module _ {W : Type 0} (safe : W → W → Type 0) where
  abbrev pub Does : {A : Type 0} → Action W A → Result OpenError A → Type 0
  Does m r = (w : W) → (w' : W) × (m w ≡ done (r, w')) × safe w w'

  module _ (here : (w : W) → safe w w) where
    pub pure-Does : {A : Type 0} (a : A) → Does (pure a) (ok a)
    pure-Does a w = (w, refl, here w)

    pub call-Does :
        {A : Type 0} (u : Run (Result DbnError A)) (o : Result DbnError A)
        → u ≡ done o
        → Does (call u) (refusing o)
    call-Does u o e w = (w, rw e refl, here w)

  pub throw-Does :
      {A B : Type 0} (m : Action W A) (k : A → Action W B) (x : OpenError)
      → Does m (err x)
      → Does (m >>= k) (err x)
  throw-Does m k x does w = let (w', e, s) = does w in (w', rw e refl, s)

  module _ (there : (u v w : W) → safe u v → safe v w → safe u w) where
    pub chain-Does :
        {A B : Type 0} (m : Action W A) (k : A → Action W B) (a : A) (r : Result OpenError B)
        → Does m (ok a)
        → Does (k a) r
        → Does (m >>= k) r
    chain-Does m k a r does does' w =
        let (v, e, s) = does w in let (u, e', s') = does' v in (u, rw e e', there w v u s s')
