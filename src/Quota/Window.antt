-- ===== src/Quota/Window.antt =====
-- The quota against the log of all grants.
use evorule_rule.Prelude.{
  ℕ, ◌+◌, ◌-◌, ◌≤◌, ◌<◌, String, ◌≡◌, ◌≢◌, ◌↔◌, refl, sym, ap, ◌∙◌, subst, inl, inr, true, false,
  ◌&&◌, List, [], ◌∷◌, ◌++◌, length, length-append, leb, str_eq, str_eq_refl, eq_iff, count,
  Bool-cases, arith, if◌then◌else◌,
}
use evorule_rule.Quota.Queue.{
  Ordered, recent, later-Ordered, append-Ordered, evict-recent, recent-length, evict-length,
  evict-Ordered, recent-append, evict_shorter,
}
use evorule_rule.Quota.{Windows, set_window, evict, acquire}

-- The grants, newest last, each with its tenant.
abbrev pub Log : Type 0
Log = List (String × ℕ)

module _ (window max : ℕ) where
  abbrev pub granted : String → ℕ → Log → ℕ
  granted tenant now = count (λ g. str_eq tenant g.0 && leb (now - g.1) window)

  -- The requests so far: the time of the last one, the grants and the windows.
  pub data Served : ℕ → Log → Windows → Type 0 where
    opened : Served 0 [] (λ t. [])
    asked :
        (last now : ℕ) (tenant : String) (log : Log) (windows : Windows)
        → Served last log windows
        → last ≤ now
        → Served now
            (if (acquire window max now tenant windows).0 then log ++ (tenant, now) ∷ [] else log)
            (acquire window max now tenant windows).1

  granted-append :
      (tenant : String) (now : ℕ) (log : Log) (g : String × ℕ)
      → granted tenant now (log ++ g ∷ []) ≡ granted tenant now log + granted tenant now (g ∷ [])
  granted-append tenant now [] g = omega arith
  granted-append tenant now (h ∷ log) g = ground (arith, granted-append tenant now log g)

  record Sound (now : ℕ) (log : Log) (windows : Windows) : Type 0 where
    ordered : (t : String) → Ordered now (windows t)
    bounded : (t : String) → length (windows t) ≤ max
    agree :
        (t : String) (later : ℕ)
        → now ≤ later
        → granted t later log ≡ recent window later (windows t)

  -- The queue of one tenant replaced, and the log grown by that tenant's grants at most.
  replaced-Sound :
      (last now : ℕ) (tenant : String) (log log' : Log) (windows : Windows) (q : List ℕ)
      → last ≤ now
      → Sound last log windows
      → Ordered now q
      → length q ≤ max
      → ((later : ℕ) → now ≤ later → granted tenant later log' ≡ recent window later q)
      → ((t : String) (later : ℕ)
          → str_eq tenant t ≡ false
          → granted t later log' ≡ granted t later log)
      → Sound now log' (set_window tenant q windows)
  replaced-Sound last now tenant log log' windows q l s o b a f = record {
    ordered = λ t. elim (Bool-cases (str_eq tenant t)) [
      | inl e ↦ subst (λ b. Ordered now (if b then q else windows t)) (sym e) o
      | inr e ↦
          subst (λ b. Ordered now (if b then q else windows t)) (sym e)
            (later-Ordered last now (windows t) l (s.ordered t))
    ];
    bounded = λ t. ground (arith, s.bounded t, b);
    agree = λ t later m. elim (Bool-cases (str_eq tenant t)) [
      | inl e ↦
          subst (λ b. granted t later log' ≡ recent window later (if b then q else windows t))
            (sym e)
            (subst (λ u. granted u later log' ≡ recent window later q)
              (ground (arith, eq_iff tenant t)) (a later m))
      | inr e ↦
          subst (λ b. granted t later log' ≡ recent window later (if b then q else windows t))
            (sym e) (f t later e ∙ s.agree t later (omega (arith, l, m)))
    ];
  }

  evicted_agree :
      (last now : ℕ) (tenant : String) (log : Log) (windows : Windows)
      → last ≤ now
      → Sound last log windows
      → (later : ℕ) → now ≤ later
      → granted tenant later log ≡ recent window later (evict window now (windows tenant))
  evicted_agree last now tenant log windows l s later m =
      s.agree tenant later (omega (arith, l, m))
      ∙ sym (evict-recent window now later (windows tenant) m)

  evicted-Ordered :
      (last now : ℕ) (tenant : String) (log : Log) (windows : Windows)
      → last ≤ now
      → Sound last log windows
      → Ordered now (evict window now (windows tenant))
  evicted-Ordered last now tenant log windows l s =
      evict-Ordered window now (windows tenant)
        (later-Ordered last now (windows tenant) l (s.ordered tenant))

  refused-Sound :
      (last now : ℕ) (tenant : String) (log : Log) (windows : Windows)
      → last ≤ now
      → Sound last log windows
      → Sound now log (set_window tenant (evict window now (windows tenant)) windows)
  refused-Sound last now tenant log windows l s =
      replaced-Sound last now tenant log log windows (evict window now (windows tenant)) l s
        (evicted-Ordered last now tenant log windows l s)
        (omega (arith, evict_shorter window now (windows tenant), s.bounded tenant))
        (evicted_agree last now tenant log windows l s) (λ t later e. refl)

  granted-Sound :
      (last now : ℕ) (tenant : String) (log : Log) (windows : Windows)
      → last ≤ now
      → length (evict window now (windows tenant)) < max
      → Sound last log windows
      → Sound now
          (log ++ (tenant, now) ∷ [])
          (set_window tenant (evict window now (windows tenant) ++ now ∷ []) windows)
  granted-Sound last now tenant log windows l r s =
      let q = evict window now (windows tenant) in
      replaced-Sound last now tenant log (log ++ (tenant, now) ∷ []) windows (q ++ now ∷ []) l s
        (append-Ordered now q (evicted-Ordered last now tenant log windows l s))
        (omega (arith, length-append q (now ∷ []), r))
        (λ later m. ground (
          arith,
          granted-append tenant later log (tenant, now),
          recent-append window later q now,
          evicted_agree last now tenant log windows l s later m,
          str_eq_refl tenant,
        ))
        (λ t later e.
          ground
            (arith, granted-append t later log (tenant, now), eq_iff tenant t, eq_iff t tenant))

  acquire_refused :
      (now : ℕ) (tenant : String) (windows : Windows)
      → max ≢ 0
      → leb max (length (evict window now (windows tenant))) ≡ true
      → acquire window max now tenant windows
        ≡ (false, set_window tenant (evict window now (windows tenant)) windows)
  unfolding acquire
  acquire_refused now tenant windows n e = ground (arith, n, e)

  acquire_granted :
      (now : ℕ) (tenant : String) (windows : Windows)
      → max ≢ 0
      → leb max (length (evict window now (windows tenant))) ≡ false
      → acquire window max now tenant windows
        ≡ (true, set_window tenant (evict window now (windows tenant) ++ now ∷ []) windows)
  unfolding acquire
  acquire_granted now tenant windows n e = ground (arith, n, e)

  Served-Sound :
      {now : ℕ} {log : Log} {windows : Windows}
      → max ≢ 0
      → Served now log windows
      → Sound now log windows
  unfolding Ordered
  Served-Sound n opened = record {
    ordered = λ t. tt;
    bounded = λ t. omega arith;
    agree = λ t later m. refl;
  }
  Served-Sound n (asked last now tenant log windows s l) =
      let q = evict window now (windows tenant) in
      elim (Bool-cases (leb max (length q))) [
        | inl e ↦
            subst (λ p. Sound now (if p.0 then log ++ (tenant, now) ∷ [] else log) p.1)
              (sym (acquire_refused now tenant windows n e))
              (refused-Sound last now tenant log windows l (Served-Sound n s))
        | inr e ↦
            subst (λ p. Sound now (if p.0 then log ++ (tenant, now) ∷ [] else log) p.1)
              (sym (acquire_granted now tenant windows n e))
              (granted-Sound last now tenant log windows l (ground arith) (Served-Sound n s))
      ]

  -- Where the quota is not switched off, no window that ends at the last request or later holds more
  -- than `max` grants to one tenant, whatever requests came from which tenants.
  pub granted-bound :
      {now : ℕ} {log : Log} {windows : Windows}
      → max ≢ 0
      → Served now log windows
      → (tenant : String) (later : ℕ) → now ≤ later
      → granted tenant later log ≤ max
  granted-bound {now} {log} {windows} n s tenant later l =
      let i = Served-Sound n s in
      omega (
        arith,
        i.agree tenant later l,
        recent-length window later (windows tenant),
        i.bounded tenant,
      )

  -- A request is granted exactly where the window before it holds fewer than `max` grants to its
  -- tenant; the requests of other tenants do not count.
  pub acquire_iff :
      {last : ℕ} {log : Log} {windows : Windows}
      → max ≢ 0
      → Served last log windows
      → (now : ℕ) (tenant : String) → last ≤ now
      → ((acquire window max now tenant windows).0 ≡ true) ↔ (granted tenant now log < max)
  acquire_iff {last} {log} {windows} n s now tenant l =
      let i = Served-Sound n s in
      let q = evict window now (windows tenant) in
      let size =
        evict-length window now (windows tenant)
          (later-Ordered last now (windows tenant) l (i.ordered tenant)) in
      let same = i.agree tenant now l in
      elim (Bool-cases (leb max (length q))) [
        | inl e ↦
            let r = ap (λ p. p.0) (acquire_refused now tenant windows n e) in
            ((λ h. cc (r, h)), λ h. absurd (ground (arith, e, size, same, h)))
        | inr e ↦
            let r = ap (λ p. p.0) (acquire_granted now tenant windows n e) in
            ((λ h. ground (arith, e, size, same)), λ h. r)
      ]
