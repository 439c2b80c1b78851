-- ===== src/Base/State.antt =====
-- Methods that change an object: from a state to an outcome and the state left behind, which is
-- kept when an error is returned.
use mathlib.Core.Bool.{Bool, true, false}
use broadauth.Base.Outcomes.{Result, Error, ok, err, panic, running}

abbrev pub M {ℓ κ} : Type ℓ → Type κ → Type (ℓ ⊔ κ)
M S A = S → Result A × S

-- What follows a step, given its outcome.
abbrev pub carry {ℓ κ μ} :
    {S : Type ℓ} {A : Type κ} {B : Type μ} → Result A × S → (A → M S B) → Result B × S
carry (ok a, s) f = f a s
carry (err e, s) f = (err e, s)
carry (panic, s) f = (panic, s)
carry (running, s) f = (running, s)

infixl 5 ◌>>=◌ ◌>>◌
abbrev pub ◌>>=◌ {ℓ κ μ} : {S : Type ℓ} {A : Type κ} {B : Type μ} → M S A → (A → M S B) → M S B
◌>>=◌ m f s = carry (m s) f

abbrev pub ◌>>◌ {ℓ κ μ} : {S : Type ℓ} {A : Type κ} {B : Type μ} → M S A → M S B → M S B
◌>>◌ m k s = carry (m s) (λ _. k)

abbrev pub pure {ℓ κ} : {S : Type ℓ} {A : Type κ} → A → M S A
pure a s = (ok a, s)

abbrev pub fail {ℓ κ} : {S : Type ℓ} {A : Type κ} → Error → M S A
fail e s = (err e, s)

abbrev pub lift {ℓ κ} : {S : Type ℓ} {A : Type κ} → Result A → M S A
lift r s = (r, s)

abbrev pub gets {ℓ κ} : {S : Type ℓ} {A : Type κ} → (S → A) → M S A
gets f s = (ok (f s), s)

abbrev pub modify {ℓ} : {S : Type ℓ} → (S → S) → M S (Unit {0})
modify f s = (ok tt, f s)

abbrev pub when {ℓ κ} : {S : Type ℓ} {A : Type κ} → Bool → M S A → M S A → M S A
when true m k = m
when false m k = k

-- What is done after an error; a panic is not caught.
abbrev pub on_error {ℓ κ} : {S : Type ℓ} {A : Type κ} → Result A × S → M S A → Result A × S
on_error (ok a, s) k = (ok a, s)
on_error (err e, s) k = k s
on_error (panic, s) k = (panic, s)
on_error (running, s) k = (running, s)

-- `Q` of a value and the state it comes with, and `E` of the state that any other outcome leaves.
abbrev pub Post {ℓ κ μ} :
    {S : Type ℓ} {A : Type κ} → (A → S → Type μ) → (S → Type μ) → Result A × S → Type μ
Post Q E (ok a, s) = Q a s
Post Q E (err e, s) = E s
Post Q E (panic, s) = E s
Post Q E (running, s) = E s

-- A value or an error.
abbrev pub Answered {ℓ κ} : {S : Type ℓ} {A : Type κ} → Result A × S → Type 0
Answered (ok a, s) = Unit
Answered (err e, s) = Unit
Answered (panic, s) = ⊥
Answered (running, s) = ⊥

pub Post-carry {ℓ κ κ' μ} :
    {S : Type ℓ} {A : Type κ} {B : Type κ'} (Q : A → S → Type μ) (R : B → S → Type μ)
    (E : S → Type μ) (r : Result A × S) (f : A → M S B)
    → Post Q E r
    → ((a : A) (s : S) → Q a s → Post R E (f a s))
    → Post R E (carry r f)
Post-carry Q R E (ok a, s) f p k = k a s p
Post-carry Q R E (err e, s) f p k = p
Post-carry Q R E (panic, s) f p k = p
Post-carry Q R E (running, s) f p k = p

pub Post-on_error {ℓ κ μ} :
    {S : Type ℓ} {A : Type κ} (Q : A → S → Type μ) (E : S → Type μ) (r : Result A × S) (k : M S A)
    → Post Q E r
    → ((s : S) → E s → Post Q E (k s))
    → Post Q E (on_error r k)
Post-on_error Q E (ok a, s) k p h = p
Post-on_error Q E (err e, s) k p h = h s p
Post-on_error Q E (panic, s) k p h = p
Post-on_error Q E (running, s) k p h = p

pub Post-weaken {ℓ κ μ} :
    {S : Type ℓ} {A : Type κ} (Q R : A → S → Type μ) (E F : S → Type μ) (r : Result A × S)
    → Post Q E r
    → ((a : A) (s : S) → Q a s → R a s)
    → ((s : S) → E s → F s)
    → Post R F r
Post-weaken Q R E F (ok a, s) p f g = f a s p
Post-weaken Q R E F (err e, s) p f g = g s p
Post-weaken Q R E F (panic, s) p f g = g s p
Post-weaken Q R E F (running, s) p f g = g s p

-- What a step and all that can follow it keep.
pub carry-keeps {ℓ κ κ' μ} :
    {S : Type ℓ} {A : Type κ} {B : Type κ'} (P : S → Type μ) (r : Result A × S) (f : A → M S B)
    → P r.1
    → ((a : A) (s : S) → P s → P (f a s).1)
    → P (carry r f).1
carry-keeps P (ok a, s) f p k = k a s p
carry-keeps P (err e, s) f p k = p
carry-keeps P (panic, s) f p k = p
carry-keeps P (running, s) f p k = p

-- The state that any outcome leaves.
pub Post-state {ℓ κ μ} :
    {S : Type ℓ} {A : Type κ} (Q : A → S → Type μ) (E F : S → Type μ) (r : Result A × S)
    → Post Q E r
    → ((a : A) (s : S) → Q a s → F s)
    → ((s : S) → E s → F s)
    → F r.1
Post-state Q E F (ok a, s) p f g = f a s p
Post-state Q E F (err e, s) p f g = g s p
Post-state Q E F (panic, s) p f g = g s p
Post-state Q E F (running, s) p f g = g s p
