-- ===== src/Prelude/Run.antt =====
-- Code that returns a value, returns an error, or panics.
use mathlib.Core.Bool.{Bool, true, false}
use mathlib.Core.Option.{Option, none, some}
use mathlib.Core.Path.{◌≡◌, refl, subst}
use native.Mathlib.Omega.{arith}

-- `err` is the `Err` of a `Result` whose error the callers only print. `panicked` stands for a call
-- that never returns: it panics, or it locks a mutex that its own thread holds.
pub data Run {ℓ} (A : Type ℓ) : Type ℓ where
  ok : A → Run A
  err : Run A
  panicked : Run A

infixl 5 ◌>>=◌ ◌>>◌
abbrev pub ◌>>=◌ {ℓ κ} : {A : Type ℓ} {B : Type κ} → Run A → (A → Run B) → Run B
ok a >>= f = f a
err >>= f = err
panicked >>= f = panicked

abbrev pub ◌>>◌ {ℓ} : {B : Type ℓ} → Run (Unit {0}) → Run B → Run B
m >> k = m >>= λ _. k

-- The operator `?`.
abbrev pub or_err {ℓ} : {A : Type ℓ} → Option A → Run A
or_err none = err
or_err (some a) = ok a

abbrev pub check : Bool → Run (Unit {0})
check true = ok tt
check false = err

-- `unwrap` and `expect`.
abbrev pub or_panic {ℓ} : {A : Type ℓ} → Option A → Run A
or_panic none = panicked
or_panic (some a) = ok a

abbrev pub expect : Bool → Run (Unit {0})
expect true = ok tt
expect false = panicked

-- `unwrap` of a `Result`.
abbrev pub unwrap {ℓ} : {A : Type ℓ} → Run A → Run A
unwrap (ok a) = ok a
unwrap err = panicked
unwrap panicked = panicked

-- What holds of the value that the code returns, if it returns one.
abbrev pub Always {ℓ κ} : {A : Type ℓ} → (A → Type κ) → Run A → Type κ
Always P (ok a) = P a
Always P err = Unit
Always P panicked = Unit

pub Always->>= {ℓ κ ι} :
    {A : Type ℓ} {B : Type κ} (P : B → Type ι) (m : Run A) (f : A → Run B)
    → ((a : A) → m ≡ ok a → Always P (f a))
    → Always P (m >>= f)
Always->>= P (ok a) f h = h a refl
Always->>= P err f h = tt
Always->>= P panicked f h = tt

pub Always-ok {ℓ κ} :
    {A : Type ℓ} (P : A → Type κ) (m : Run A) (a : A) → m ≡ ok a → Always P m → P a
Always-ok P m a e h = subst (Always P) e h

pub or_panic-ok {ℓ} : {A : Type ℓ} (o : Option A) (a : A) → or_panic o ≡ ok a → o ≡ some a
or_panic-ok none a e = absurd (ground arith)
or_panic-ok (some b) a e = ground arith

-- Inversion of a successful bind.
pub >>=-ok {ℓ κ} :
    {A : Type ℓ} {B : Type κ} (m : Run A) (f : A → Run B) (b : B)
    → (m >>= f) ≡ ok b
    → (a : A) × (m ≡ ok a) × (f a ≡ ok b)
>>=-ok (ok a) f b h = (a, refl, h)
>>=-ok err f b h = cc
>>=-ok panicked f b h = cc
