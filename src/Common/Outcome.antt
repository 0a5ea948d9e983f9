-- ===== src/Common/Outcome.antt =====
-- A call that returns a value or throws: `BusinessFailure` of
-- backend/src/modules/business/domain/errors.ts and its four kinds. `M` is what the message says.
use mathlib.Core.Bool.{Bool, true, false}

pub data FailureKind : Type 0 where
  not_found conflict validation forbidden : FailureKind

pub data Outcome (M A : Type 0) : Type 0 where
  ok : A → Outcome M A
  fail : FailureKind → M → Outcome M A

abbrev pub is_ok : {M A : Type 0} → Outcome M A → Bool
is_ok (ok _) = true
is_ok (fail _ _) = false

infixl 5 ◌>>=◌
abbrev pub ◌>>=◌ : {M A B : Type 0} → Outcome M A → (A → Outcome M B) → Outcome M B
ok a >>= f = f a
fail k m >>= f = fail k m
