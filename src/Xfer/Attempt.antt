-- ===== src/Xfer/Attempt.antt =====
-- The functions of src/xfer.cpp that stop at the first step that fails: those that return `bool`
-- behind a chain of `if (!step) return false;`. `none` is false; a true that comes with a value,
-- left in an output parameter, is `some` of it.
use ftx.Base.{Option, none, some, Bool, if◌then◌else◌}
use ftx.Xfer.Link.{M, value, bind}

abbrev pub Attempt : Type 0 → Type 0
Attempt A = M (Option A)

infixl 5 ◌>>=◌ ◌>>◌
unfoldable pub ◌>>=◌ : {A B : Type 0} → Attempt A → (A → Attempt B) → Attempt B
◌>>=◌ m f l = bind (m l) λ o l'. elim o [ none ↦ value none l' | some a ↦ f a l' ]

abbrev pub ◌>>◌ : {B : Type 0} → Attempt (Unit {0}) → Attempt B → Attempt B
m >> k = m >>= λ _. k

abbrev pub return : {A : Type 0} → A → Attempt A
return a l = value (some a) l

abbrev pub fail : {A : Type 0} → Attempt A
fail l = value none l

-- `if (!holds) return false;`
abbrev pub guard : Bool → Attempt (Unit {0})
guard holds l = value (if holds then some tt else none) l

-- A caller that does one thing when the steps fail and another when they succeed.
unfoldable pub either_way : {A B : Type 0} → Attempt A → B → (A → M B) → M B
either_way m failed f l = bind (m l) λ o l'. elim o [ none ↦ value failed l' | some a ↦ f a l' ]
