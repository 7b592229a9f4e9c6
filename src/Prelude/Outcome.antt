-- ===== src/Prelude/Outcome.antt =====
-- What a call that may throw leaves: its exception or its value.
pub data Result {ℓ κ} (E : Type κ) (A : Type ℓ) : Type (ℓ ⊔ κ) where
  err : E → Result E A
  ok : A → Result E A

infixl 5 ◌>>=◌
abbrev pub ◌>>=◌ {ℓ ℓ' κ} :
    {X : Type ℓ} {Y : Type ℓ'} {E : Type κ} → Result E X → (X → Result E Y) → Result E Y
err exception >>= next = err exception
ok value >>= next = next value
