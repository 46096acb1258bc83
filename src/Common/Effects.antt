-- ===== src/Common/Effects.antt =====
-- Requests that change state and may end in a problem response. What was written before a problem
-- stays written, unless the code runs in a transaction.
use Prim.Native.Nat.{ℕ}
use mathlib.Core.Path.{◌≡◌, refl}
use mathlib.Core.Logic.{◌⊎◌, inl, inr}
use mathlib.Core.Bool.{Bool, true, false}
use mathlib.Core.Option.{Option, none, some}

pub data ErrorCode : Type 0 where
  validation_failed unauthenticated forbidden not_found asset_in_use resource_in_use : ErrorCode
  alt_text_required last_admin slug_taken publish_blocked rate_limited : ErrorCode
  unsupported_provider source_type_mismatch unknown_variable feature_disabled : ErrorCode
  not_implemented redirect_chain : ErrorCode

-- the status and the code; the title for a person is left out
pub record Problem : Type 0 where
  pub status : ℕ
  pub code : ErrorCode

abbrev pub problem : ℕ → ErrorCode → Problem
problem status code = record { status = status; code = code }

pub data Result {ℓ} (A : Type ℓ) : Type ℓ where
  ok : A → Result A
  err : Problem → Result A

abbrev pub Exec : Type 0 → Type 0 → Type 0
Exec S A = S → Result A × S

pub Result-cases {ℓ} :
    {A : Type ℓ} (r : Result A) → ((a : A) × (r ≡ ok a)) ⊎ ((p : Problem) × (r ≡ err p))
Result-cases (ok a) = inl (a, refl)
Result-cases (err p) = inr (p, refl)

module _ {S A : Type 0} where
  abbrev pub pure : A → Exec S A
  pure a s = (ok a, s)

  abbrev pub fail : ℕ → ErrorCode → Exec S A
  fail status code s = (err (problem status code), s)

  abbrev pub gets : (S → A) → Exec S A
  gets f s = (ok (f s), s)

  -- a transaction: a problem undoes every write of the block
  abbrev commit : S → Result A × S → Result A × S
  commit s (ok a, s') = (ok a, s')
  commit s (err e, s') = (err e, s)

  abbrev pub transaction : Exec S A → Exec S A
  transaction m s = commit s (m s)

  -- `if (!row) throw`
  abbrev pub require : ℕ → ErrorCode → Option A → Exec S A
  require status code none = fail status code
  require status code (some a) = pure a

module _ {S : Type 0} where
  abbrev pub modify : (S → S) → Exec S Unit
  modify f s = (ok tt, f s)

  -- `if (refused) throw`
  abbrev pub refuse_if : Bool → ℕ → ErrorCode → Exec S Unit
  refuse_if true status code = fail status code
  refuse_if false status code = pure tt

module _ {S A B : Type 0} where
  abbrev continue : (A → Exec S B) → Result A × S → Result B × S
  continue f (ok a, s) = f a s
  continue f (err e, s) = (err e, s)

  infixl 5 ◌>>=◌ ◌>>◌
  abbrev pub ◌>>=◌ : Exec S A → (A → Exec S B) → Exec S B
  ◌>>=◌ m f s = continue f (m s)

  abbrev pub ◌>>◌ : Exec S A → Exec S B → Exec S B
  m >> n = m >>= λ _. n

-- Inversion of a chain that returned.
module _ {S A B : Type 0} where
  continue-eq-ok :
      (r : Result A) (s : S) (f : A → Exec S B) {b : B}
      → (continue f (r, s)).0 ≡ ok b
      → (a : A) × (r ≡ ok a) × ((f a s).0 ≡ ok b)
  continue-eq-ok (ok a) s f h = (a, refl, h)
  continue-eq-ok (err e) s f h = cc

  pub >>=-eq-ok :
      (m : Exec S A) (f : A → Exec S B) (s : S) {b : B}
      → ((m >>= f) s).0 ≡ ok b
      → (a : A) × ((m s).0 ≡ ok a) × ((f a (m s).1).0 ≡ ok b)
  >>=-eq-ok m f s h = continue-eq-ok (m s).0 (m s).1 f h
