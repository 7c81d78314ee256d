-- ===== src/Base/Keys.antt =====
-- What JavaScript's `===` decides: a type of keys with decidable equality, as an instance.
use Prim.Native.Nat.{ℕ}
use Prim.Native.String.{String}
use mathlib.Core.Path.{◌≡◌, refl, sym, ap}
use mathlib.Core.Bool.{Bool, true, false, false≢true}
use mathlib.Core.Option.{Option, none, some, some-injective}
use native.Mathlib.Decide.{ℕ_discrete}
use text.Mathlib.Text.{◌==◌ as str_eq}
use text.Mathlib.TextEquality.{eq_iff}

pub record Key {ℓ} (K : Type ℓ) : Type ℓ where
  pub eq? : Discrete K

decided : {s t : String} (b : Bool) → ((b ≡ true) → s ≡ t) → (s ≡ t → b ≡ true) → Dec (s ≡ t)
decided true to from = yes (to refl)
decided false to from = no (λ e. false≢true (from e))

unfoldable pub string_discrete : Discrete String
unfolding decided
string_discrete s t = decided (str_eq s t) (eq_iff s t).0 (eq_iff s t).1

pub none≢some {ℓ} : {A : Type ℓ} (a : A) → ¬ (none ≡ some a)
none≢some a e = cc

unfoldable pub Option_discrete {ℓ} : {A : Type ℓ} → Discrete A → Discrete (Option A)
Option_discrete d none none = yes refl
Option_discrete d none (some b) = no (none≢some b)
Option_discrete d (some a) none = no (λ e. none≢some a (sym e))
Option_discrete d (some a) (some b) = elim (d a b) [
  | yes p ↦ yes (ap some p)
  | no n ↦ no (λ e. n (some-injective a b e))
]

instance abbrev pub nat_key : Key ℕ
nat_key = record { eq? = ℕ_discrete }

instance abbrev pub string_key : Key String
string_key = record { eq? = string_discrete }
