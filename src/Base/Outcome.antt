-- ===== src/Base/Outcome.antt =====
-- Results that carry an error, for `std::expected` and for code that throws, and loops on fuel.
pub data Result {ℓ} (E A : Type ℓ) : Type ℓ where
  ok : A → Result E A
  err : E → Result E A

-- What a loop on fuel gives: the value it stopped with, or no answer within the fuel.
pub data Run {ℓ} (A : Type ℓ) : Type ℓ where
  done : A → Run A
  out_of_fuel : Run A

-- The value of a loop that stopped, handed on.
abbrev pub and_then {ℓ κ} : {A : Type ℓ} {B : Type κ} → Run A → (A → Run B) → Run B
and_then (done a) f = f a
and_then out_of_fuel f = out_of_fuel

-- The same where the value may be an error, which ends the chain.
infixl 5 ◌>>=◌ ◌>>◌
abbrev pub ◌>>=◌ {ℓ} :
    {E A B : Type ℓ} → Run (Result E A) → (A → Run (Result E B)) → Run (Result E B)
m >>= k = and_then m (λ o. elim o [ err x ↦ done (err x) | ok a ↦ k a ])

abbrev pub ◌>>◌ {ℓ} : {E A B : Type ℓ} → Run (Result E A) → Run (Result E B) → Run (Result E B)
m >> n = m >>= λ _. n
