-- ===== src/Base/Bind.antt =====
-- Chains of fallible steps, for do blocks.
use mathlib.Core.Option.{Option, none, some}

infixl 20 ◌>>=◌
unfoldable pub ◌>>=◌ : {A B : Type 0} → Option A → (A → Option B) → Option B
none >>= f = none
some a >>= f = f a
