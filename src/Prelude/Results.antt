-- ===== src/Prelude/Results.antt =====
-- Handlers that throw: a result or an HTTP exception, with `do`.
use Prim.Native.String.{String}
use mathlib.Core.Path.{◌≡◌, refl, ap}
use mathlib.Core.Bool.{Bool, true, false}
use mathlib.Core.Option.{Option, none, some}

-- The exception classes of NestJS that the services throw, and any other error.
pub data ErrorKind : Type 0 where
  bad_request forbidden not_found conflict internal : ErrorKind

pub record ApiError : Type 0 where
  pub kind : ErrorKind
  pub code : String
  pub message : String

pub data Result {ℓ} (A : Type ℓ) : Type ℓ where
  ok : A → Result A
  err : ApiError → Result A

abbrev pub throw_error {ℓ} : {A : Type ℓ} → ErrorKind → String → String → Result A
throw_error kind code message = err (record { kind = kind; code = code; message = message })

infixl 5 ◌>>=◌ ◌>>◌
abbrev pub ◌>>=◌ {ℓ κ} : {A : Type ℓ} {B : Type κ} → Result A → (A → Result B) → Result B
ok a >>= f = f a
err e >>= f = err e

abbrev pub ◌>>◌ {ℓ} : {A : Type ℓ} → Result (Unit {0}) → Result A → Result A
m >> next = m >>= λ _. next

-- `if (!test) throw new …`.
abbrev pub require : Bool → ErrorKind → String → String → Result (Unit {0})
require true kind code message = ok tt
require false kind code message = throw_error kind code message

abbrev pub require_some {ℓ} : {A : Type ℓ} → Option A → ErrorKind → String → String → Result A
require_some none kind code message = throw_error kind code message
require_some (some a) kind code message = ok a

-- What an accepted call has passed.
pub require_some-ok {ℓ κ} :
    {A : Type ℓ} {B : Type κ} (o : Option A) (kind : ErrorKind) (code message : String)
    (f : A → Result B) (b : B)
    → (require_some o kind code message >>= f) ≡ ok b
    → (a : A) × (o ≡ some a) × (f a ≡ ok b)
require_some-ok none kind code message f b h = cc
require_some-ok (some a) kind code message f b h = (a, refl, h)

pub require-ok {ℓ} :
    {B : Type ℓ} (test : Bool) (kind : ErrorKind) (code message : String) (next : Result B) (b : B)
    → (require test kind code message >> next) ≡ ok b
    → (test ≡ true) × (next ≡ ok b)
require-ok true kind code message next b h = (refl, h)
require-ok false kind code message next b h = cc

pub bind-ok {ℓ κ} :
    {A : Type ℓ} {B : Type κ} (m : Result A) (f : A → Result B) (b : B)
    → (m >>= f) ≡ ok b
    → (a : A) × (m ≡ ok a) × (f a ≡ ok b)
bind-ok (ok a) f b h = (a, refl, h)
bind-ok (err e) f b h = cc

pub ok-injective {ℓ} : {A : Type ℓ} {a b : A} → ok a ≡ ok b → a ≡ b
ok-injective {A = A} {a} e = ap (value_or a) e
  where
    value_or : A → Result A → A
    value_or x (ok y) = y
    value_or x (err f) = x

pub require_test :
    (test : Bool) (kind : ErrorKind) (code message : String)
    → require test kind code message ≡ ok tt
    → test ≡ true
require_test true kind code message h = refl
require_test false kind code message h = cc
