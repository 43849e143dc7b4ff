-- ===== src/Base/Optional.antt =====
-- `Option` as the source chains it: `?` and `and_then` are `◌>>=◌`.
use mathlib.Core.Option.{Option, none, some}

infixl 5 ◌>>=◌
abbrev pub ◌>>=◌ {ℓ} : {A B : Type ℓ} → Option A → (A → Option B) → Option B
some a >>= f = f a
none >>= f = none

-- The same, for a file in which `◌>>=◌` is that of `Result`.
infixl 45 ◌>>-◌
abbrev pub ◌>>-◌ {ℓ} : {A B : Type ℓ} → Option A → (A → Option B) → Option B
some a >>- f = f a
none >>- f = none

-- `Option::map`.
abbrev pub map_some {ℓ} : {A B : Type ℓ} → (A → B) → Option A → Option B
map_some f (some a) = some (f a)
map_some f none = none

-- `Option::or_else`, its second value computed in any case.
abbrev pub or_else {ℓ} : {A : Type ℓ} → Option A → Option A → Option A
or_else (some a) other = some a
or_else none other = other

-- `Option::unwrap_or`.
abbrev pub unwrap_or {ℓ} : {A : Type ℓ} → Option A → A → A
unwrap_or (some a) default = a
unwrap_or none default = default
