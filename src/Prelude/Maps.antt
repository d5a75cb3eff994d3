-- ===== src/Prelude/Maps.antt =====
-- Dictionaries whose keys are numbers, as functions.
use Prim.Native.Nat.{ℕ}
use async_payment_processing.Prelude.Tests.{if◌then◌else◌, ◌==◌}

-- `f[k] = v`
abbrev pub update {ℓ} : {A : Type ℓ} → (ℕ → A) → ℕ → A → ℕ → A
update f k v j = if j == k then v else f j
