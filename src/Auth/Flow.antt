-- ===== src/Auth/Flow.antt =====
-- A method of `AuthService` at work: the accounts and the random numbers drawn so far go through it,
-- and stay as they are where it returns an error.
pub mod Growth
pub mod Inversion
use Prim.Native.String.{◌++◌}
use evorule_rule.Prelude.{
  ℕ, zero, suc, String, Bool, true, false, Option, none, some, List, Result, ok, err, ok_or,
}
use evorule_rule.Store.State.{StoreError}
use evorule_rule.KeyRing.{AuthError, store}
use evorule_rule.Accounts.State.{Accounts}

pub record Host : Type 0 where
  pub accounts : Accounts
  pub drawn : ℕ

abbrev pub Flow : Type 0 → Type 0
Flow A = Host → Result AuthError A × Host

module _ {A : Type 0} where
  abbrev pub pure : A → Flow A
  pure a h = (ok a, h)

  abbrev pub fail : AuthError → Flow A
  fail e h = (err e, h)

  -- `?` on a result that has no effect.
  abbrev pub from : Result AuthError A → Flow A
  from r h = (r, h)

  abbrev pub read : (Accounts → A) → Flow A
  read f h = (ok (f h.accounts), h)

  abbrev as_auth : Result StoreError A → Result AuthError A
  as_auth (ok a) = ok a
  as_auth (err e) = err (store e)

  abbrev pub try_read : (Accounts → Result StoreError A) → Flow A
  try_read f h = (as_auth (f h.accounts), h)

module _ {A B : Type 0} where
  abbrev pub continue : (A → Flow B) → Result AuthError A × Host → Result AuthError B × Host
  continue f (err e, h) = (err e, h)
  continue f (ok a, h) = f a h

  infixl 5 ◌>>=◌
  abbrev pub ◌>>=◌ : Flow A → (A → Flow B) → Flow B
  ◌>>=◌ m f h = continue f (m h)

infixl 5 ◌>>◌
abbrev pub ◌>>◌ : {B : Type 0} → Flow (Unit {0}) → Flow B → Flow B
m >> k = m >>= λ done. k

abbrev pub check : Bool → AuthError → Flow (Unit {0})
check true e = pure tt
check false e = fail e

abbrev pub refuse_if : Bool → Flow (Unit {0}) → AuthError → Flow (Unit {0})
refuse_if true log e = log >> fail e
refuse_if false log e = pure tt

abbrev pub when : Bool → Flow (Unit {0}) → Flow (Unit {0})
when true m = m
when false m = pure tt

abbrev pub write : (Accounts → Accounts) → Flow (Unit {0})
write f h = (ok tt, record h { accounts = f h.accounts })

abbrev pub written : Host → Result StoreError Accounts → Result AuthError (Unit {0}) × Host
written h (ok s) = (ok tt, record h { accounts = s })
written h (err e) = (err (store e), h)

abbrev pub try_write : (Accounts → Result StoreError Accounts) → Flow (Unit {0})
try_write f h = written h (f h.accounts)

-- The failure of a write that the method only logs.
abbrev pub kept : Host → Result StoreError Accounts → Result AuthError (Unit {0}) × Host
kept h (ok s) = (ok tt, record h { accounts = s })
kept h (err e) = (ok tt, h)

abbrev pub lenient_write : (Accounts → Result StoreError Accounts) → Flow (Unit {0})
lenient_write f h = kept h (f h.accounts)
