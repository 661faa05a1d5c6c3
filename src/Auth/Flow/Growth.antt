-- ===== src/Auth/Flow/Growth.antt =====
-- A flow of steps that only add to the audit log and the revocations does so too.
use evorule_rule.Prelude.{◌≡◌, refl, Bool, true, false, Result, ok, err}
use evorule_rule.Store.State.{StoreError}
use evorule_rule.KeyRing.{AuthError}
use evorule_rule.Accounts.State.{Accounts}
use evorule_rule.Accounts.Growth.{Extends, Extends-refl, Extends-trans}
use evorule_rule.Auth.Flow.{
  Host, Flow, pure, fail, from, read, try_read, continue, ◌>>=◌, ◌>>◌, check, refuse_if, when,
  write, try_write, written, kept, lenient_write,
}

unfoldable pub Grows : {A : Type 0} → Flow A → Type 0
Grows m = (h : Host) → Extends h.accounts (m h).1.accounts

module _ {A : Type 0} where
  pub pure-Grows : (a : A) → Grows (pure a)
  unfolding Grows
  pure-Grows a h = Extends-refl h.accounts

  pub from-Grows : (r : Result AuthError A) → Grows (from r)
  unfolding Grows
  from-Grows r h = Extends-refl h.accounts

  pub read-Grows : (f : Accounts → A) → Grows (read f)
  unfolding Grows
  read-Grows f h = Extends-refl h.accounts

  pub try_read-Grows : (f : Accounts → Result StoreError A) → Grows (try_read f)
  unfolding Grows
  try_read-Grows f h = Extends-refl h.accounts

module _ {A B : Type 0} where
  continue-Extends :
      (s : Accounts) (f : A → Flow B) (r : Result AuthError A) (h : Host)
      → Extends s h.accounts
      → ((a : A) → Grows (f a))
      → Extends s (continue f (r, h)).1.accounts
  unfolding Grows
  continue-Extends s f (err e) h x g = x
  continue-Extends s f (ok a) h x g = Extends-trans x (g a h)

  pub bind-Grows :
      (m : Flow A) (f : A → Flow B) → Grows m → ((a : A) → Grows (f a)) → Grows (m >>= f)
  unfolding Grows
  bind-Grows m f gm gf h = continue-Extends h.accounts f (m h).0 (m h).1 (gm h) gf

pub then-Grows :
    {B : Type 0} (m : Flow (Unit {0})) (k : Flow B) → Grows m → Grows k → Grows (m >> k)
then-Grows m k gm gk = bind-Grows m (λ done. k) gm (λ done. gk)

pub fail-Grows : (A : Type 0) (e : AuthError) → Grows (fail {A = A} e)
unfolding Grows
fail-Grows A e h = Extends-refl h.accounts

pub check-Grows : (b : Bool) (e : AuthError) → Grows (check b e)
check-Grows true e = pure-Grows tt
check-Grows false e = fail-Grows _ e

pub refuse_if-Grows :
    (b : Bool) (log : Flow (Unit {0})) (e : AuthError) → Grows log → Grows (refuse_if b log e)
refuse_if-Grows true log e g = then-Grows log (fail e) g (fail-Grows _ e)
refuse_if-Grows false log e g = pure-Grows tt

pub when-Grows : (b : Bool) (m : Flow (Unit {0})) → Grows m → Grows (when b m)
when-Grows true m g = g
when-Grows false m g = pure-Grows tt

pub write-Grows : (f : Accounts → Accounts) → ((s : Accounts) → Extends s (f s)) → Grows (write f)
unfolding Grows
write-Grows f x h = x h.accounts

written-Extends :
    (h : Host) (r : Result StoreError Accounts)
    → ((t : Accounts) → r ≡ ok t → Extends h.accounts t)
    → Extends h.accounts (written h r).1.accounts
written-Extends h (ok t) x = x t refl
written-Extends h (err e) x = Extends-refl h.accounts

kept-Extends :
    (h : Host) (r : Result StoreError Accounts)
    → ((t : Accounts) → r ≡ ok t → Extends h.accounts t)
    → Extends h.accounts (kept h r).1.accounts
kept-Extends h (ok t) x = x t refl
kept-Extends h (err e) x = Extends-refl h.accounts

module _ (f : Accounts → Result StoreError Accounts)
    (x : (s t : Accounts) → f s ≡ ok t → Extends s t) where
  pub try_write-Grows : Grows (try_write f)
  unfolding Grows
  try_write-Grows h = written-Extends h (f h.accounts) (x h.accounts)

  pub lenient_write-Grows : Grows (lenient_write f)
  unfolding Grows
  lenient_write-Grows h = kept-Extends h (f h.accounts) (x h.accounts)

-- How a flow is put together.
pub ruleset growth = (
  pure-Grows, fail-Grows, from-Grows, read-Grows, try_read-Grows, bind-Grows, then-Grows,
  check-Grows, refuse_if-Grows, when-Grows, write-Grows, try_write-Grows, lenient_write-Grows,
)
