-- ===== src/Auth/Flow/Inversion.antt =====
-- What a flow that returns has passed through.
use evorule_rule.Prelude.{
  ◌≡◌, refl, ap, Bool, true, false, not, Option, some, Result, ok, err, ok_or, arith,
}
use evorule_rule.Store.State.{StoreError}
use evorule_rule.KeyRing.{AuthError}
use evorule_rule.Auth.Flow.{
  Host, Flow, continue, ◌>>=◌, ◌>>◌, check, refuse_if, fail, pure, as_auth,
}

-- A run that returned.
abbrev pub Ran : {B : Type 0} → Result AuthError B × Host → B → Host → Type 0
Ran run b h' = run ≡ (ok b, h')

module _ {B : Type 0} where
  -- The failure of an earlier step is that of the whole.
  err-ne-ok : {C : Type 0} (e : AuthError) (h : Host) (b : B) (h' : Host) → Ran (err e, h) b h' → C
  err-ne-ok e h b h' p = ground (arith, p)

  pub pure-ok : (a b : B) (h h' : Host) → Ran (pure a h) b h' → (a ≡ b) × (h ≡ h')
  pure-ok a b h h' p = (ground (arith, p), ap (λ run. run.1) p)

  module _ {A : Type 0} where
    continue-ok :
        (f : A → Flow B) (r : Result AuthError A) (h h' : Host) (b : B)
        → Ran (continue f (r, h)) b h'
        → (a : A) × (r ≡ ok a) × Ran (f a h) b h'
    continue-ok f (ok a) h h' b p = (a, refl, p)
    continue-ok f (err e) h h' b p = err-ne-ok e h b h' p

    pub bind-ok :
        (m : Flow A) (f : A → Flow B) (h h' : Host) (b : B)
        → Ran ((m >>= f) h) b h'
        → (a : A) × ((m h).0 ≡ ok a) × Ran (f a (m h).1) b h'
    bind-ok m f h h' b p = continue-ok f (m h).0 (m h).1 h' b p

    -- A step that returned hands its value on.
    pub bind-ran :
        (m : Flow A) (f : A → Flow B) (h : Host) (a : A)
        → (m h).0 ≡ ok a
        → (m >>= f) h ≡ f a (m h).1
    bind-ran m f h a p = ap (λ r. continue f (r, (m h).1)) p

  -- A logged failure.
  pub fail-ran :
      (log : Flow (Unit {0})) (e : AuthError) (h h' : Host) (b : B) {C : Type 0}
      → Ran ((log >> fail e) h) b h'
      → C
  fail-ran log e h h' b p =
      let (done, ran, q) = bind-ok log (λ done. fail e) h h' b p in err-ne-ok e (log h).1 b h' q

module _ {B : Type 0} where
  pub check-ok :
      (test : Bool) (e : AuthError) (k : Flow B) (h h' : Host) (b : B)
      → Ran ((check test e >> k) h) b h'
      → (test ≡ true) × Ran (k h) b h'
  check-ok true e k h h' b p = (refl, p)
  check-ok false e k h h' b p = err-ne-ok e h b h' p

  pub refuse-ok :
      (test : Bool) (log : Flow (Unit {0})) (e : AuthError) (k : Flow B) (h h' : Host) (b : B)
      → Ran ((refuse_if test log e >> k) h) b h'
      → (test ≡ false) × Ran (k h) b h'
  refuse-ok true log e k h h' b p =
      let (done, ran, q) = bind-ok (log >> fail e) (λ done. k) h h' b p in
      let end = ((log >> fail {A = Unit {0}} e) h).1 in
      fail-ran log e h end done (ap (λ r. (r, end)) ran)
  refuse-ok false log e k h h' b p = (refl, p)

  -- A test that lets the rest run.
  pub check-passed :
      (test : Bool) (e : AuthError) (k : Flow B) (h : Host)
      → test ≡ true
      → (check test e >> k) h ≡ k h
  check-passed test e k h p = ap (λ t. (check t e >> k) h) p

  pub refuse-passed :
      (test : Bool) (log : Flow (Unit {0})) (e : AuthError) (k : Flow B) (h : Host)
      → test ≡ false
      → (refuse_if test log e >> k) h ≡ k h
  refuse-passed test log e k h p = ap (λ t. (refuse_if t log e >> k) h) p

pub ok_or-ok : {A : Type 0} (o : Option A) (e : AuthError) (a : A) → ok_or o e ≡ ok a → o ≡ some a
ok_or-ok o e a p = ground (arith, p)

pub ok-inj : {A : Type 0} (a b : A) → ◌≡◌ {A = Result AuthError A} (ok a) (ok b) → a ≡ b
ok-inj a b p = ground (arith, p)

pub not-true : (b : Bool) → not b ≡ true → b ≡ false
not-true b h = ground (arith, h)

pub as_auth-ok :
    {A : Type 0} (r : Result StoreError A) (a : A)
    → ◌≡◌ {A = Result AuthError A} (as_auth r) (ok a)
    → r ≡ ok a
as_auth-ok r a p = ground (arith, p)

pub not-false : (b : Bool) → not b ≡ false → b ≡ true
not-false b h = ground (arith, h)

pub ok_or-some : {A : Type 0} (o : Option A) (e : AuthError) (a : A) → o ≡ some a → ok_or o e ≡ ok a
ok_or-some o e a p = ap (λ o. ok_or o e) p
