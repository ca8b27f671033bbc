-- ===== src/Base/Results.antt =====
-- Fallible code: `anyhow::Result`, with the error's text. The context that the source adds to an
-- error is logged only.
use Prim.Native.String.{String}
use mathlib.Core.Path.{◌≡◌, ap}

pub data Result {ℓ} (Value : Type ℓ) : Type ℓ where
  err : (message : String) → Result Value
  ok : (value : Value) → Result Value

value_or {ℓ} : {Value : Type ℓ} → Value → Result Value → Value
value_or default (err message) = default
value_or default (ok value) = value

pub ok-injective {ℓ} : {Value : Type ℓ} {a b : Value} → ok a ≡ ok b → a ≡ b
unfolding value_or
ok-injective {a = a} p = ap (value_or a) p
