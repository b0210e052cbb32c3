-- ===== src/Prelude/Maps.antt =====
-- Maps as functions. `update` writes one key; what the standard containers do on a key that is
-- present or missing is written out where they are used.
use Prim.Native.Nat.{ℕ}
use penduo.Prelude.Tests.{◌==◌, if◌then◌else◌}

abbrev pub update {ℓ} : {A : Type ℓ} → (ℕ → A) → ℕ → A → ℕ → A
update f k v j = if k == j then v else f j
