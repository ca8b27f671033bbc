-- ===== src/Base/Effects.antt =====
-- Handlers with errors: code that works on a state and stops at the first `?` that fails. What it did
-- to the state before is kept.
use mailmux.Base.Results.{Result, ok, err}
use Prim.Native.String.{String}

abbrev pub Eff : Type 0 → Type 0 → Type 0
Eff State Value = State → Result Value × State

abbrev pub go_on : {State A B : Type 0} → (A → Eff State B) → Result A × State → Result B × State
go_on rest (ok value, state) = rest value state
go_on rest (err message, state) = (err message, state)

infixl 5 ◌>>=◌ ◌>>◌
abbrev pub ◌>>=◌ : {State A B : Type 0} → Eff State A → (A → Eff State B) → Eff State B
◌>>=◌ first rest state = go_on rest (first state)

abbrev pub ◌>>◌ : {State A B : Type 0} → Eff State A → Eff State B → Eff State B
◌>>◌ first rest state = go_on (λ value. rest) (first state)

abbrev pub succeed : {State A : Type 0} → A → Eff State A
succeed value state = (ok value, state)

abbrev pub bail : {State A : Type 0} → String → Eff State A
bail message state = (err message, state)

-- A computed result, whose error is passed on.
abbrev pub lift : {State A : Type 0} → Result A → Eff State A
lift result state = (result, state)
