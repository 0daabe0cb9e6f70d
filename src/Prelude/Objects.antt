-- ===== src/Prelude/Objects.antt =====
-- JavaScript objects that are only read and spread: what each key holds.
use Prim.Native.String.{String}
use mathlib.Core.Option.{Option, none, some}
use stock_dashboard.Prelude.Tests.{if◌then◌else◌, str_eq}

abbrev pub Object {ℓ} : Type ℓ → Type ℓ
Object V = String → Option V

module _ {ℓ} {V : Type ℓ} where
  -- `{}`, `{ [key]: value }` and `{ ...a, ...b }`.
  abbrev pub no_keys : Object V
  no_keys k = none

  abbrev pub entry : String → V → Object V
  entry j v k = if str_eq j k then some v else none

  abbrev pub spread : Object V → Object V → Object V
  spread a b k = elim (b k) [ none ↦ a k | some v ↦ some v ]
