-- ===== src/Prelude/Outcome.antt =====
-- The result of running code that may touch memory it does not own. `fault` is undefined behaviour:
-- a read or a write outside an object, or through a null pointer.

pub data Run {ℓ} (A : Type ℓ) : Type ℓ where
  ok : A → Run A
  fault : Run A

-- What the code does after a step that returned.
abbrev pub bind {ℓ κ} : {A : Type ℓ} {B : Type κ} → Run A → (A → Run B) → Run B
bind (ok a) f = f a
bind fault f = fault
