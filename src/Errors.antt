-- ===== src/Errors.antt =====
-- The errors of errors.py that the modelled services raise, and results that may be one of them.
use aiagent.Prelude.{none, some, String, Bool, Option, if◌then◌else◌, some, ◌≡◌, true, arith, refl}

pub data ServiceError : Type 0 where
  authorization_error authentication_error conflict resource_not_found : String → ServiceError
  configuration_error validation_error model_provider_error run_limit_error : String → ServiceError

-- What a method returns, or the error it raises. A transaction that raises is rolled back, so an
-- error carries no tables.
pub data Attempt (A : Type 0) : Type 0 where
  returns : A → Attempt A
  raises : ServiceError → Attempt A

-- `if not test: raise error`.
unfoldable pub require : {A : Type 0} → Bool → ServiceError → Attempt A → Attempt A
require test error next = if test then next else raises error

-- `if row is None: raise error`.
unfoldable pub found : {A B : Type 0} → Option A → ServiceError → (A → Attempt B) → Attempt B
found none error next = raises error
found (some row) error next = next row

-- A method that is called first; its error is passed on.
unfoldable pub after : {A B : Type 0} → Attempt A → (A → Attempt B) → Attempt B
after (returns a) next = next a
after (raises error) next = raises error

-- What a method that returned has passed.
pub require-returns :
    {A : Type 0} (test : Bool) (error : ServiceError) (next : Attempt A) {b : A}
    → require test error next ≡ returns b
    → (test ≡ true) × (next ≡ returns b)
unfolding require
require-returns test error next e = ground arith

pub found-returns :
    {A B : Type 0} (row : Option A) (error : ServiceError) (next : A → Attempt B) {b : B}
    → found row error next ≡ returns b
    → (a : A) × (row ≡ some a) × (next a ≡ returns b)
unfolding found
found-returns none error next e = ground arith
found-returns (some a) error next e = (a, refl, e)

pub after-returns :
    {A B : Type 0} (first : Attempt A) (next : A → Attempt B) {b : B}
    → after first next ≡ returns b
    → (a : A) × (first ≡ returns a) × (next a ≡ returns b)
unfolding after
after-returns (returns a) next e = (a, refl, e)
after-returns (raises error) next e = ground arith

-- What a test or a call that is known leaves.
pub require_known :
    {A : Type 0} (test : Bool) (error : ServiceError) (next : Attempt A)
    → test ≡ true
    → require test error next ≡ next
unfolding require
require_known test error next h = rw h refl

pub after_known :
    {A B : Type 0} (first : Attempt A) (next : A → Attempt B) {a : A}
    → first ≡ returns a
    → after first next ≡ next a
unfolding after
after_known first next e = rw e refl

pub returns_injective : {A : Type 0} {a b : A} → returns a ≡ returns b → a ≡ b
returns_injective e = ground arith

pub some_injective : {A : Type 0} {a b : A} → some a ≡ some b → a ≡ b
some_injective e = ground arith
