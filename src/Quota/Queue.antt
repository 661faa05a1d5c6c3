-- ===== src/Quota/Queue.antt =====
-- The queue of one tenant: what is recent in it, its order, and what an eviction leaves.
use evorule_rule.Prelude.{
  ℕ, ◌+◌, ◌-◌, ◌≤◌, ◌≡◌, refl, sym, subst, inl, inr, List, [], ◌∷◌, ◌++◌, length, ltb, leb, count,
  All, All-append, Bool-cases, arith, if◌then◌else◌,
}
use evorule_rule.Quota.{evict}

-- A queue in the order of time, all of it before `now`.
unfoldable pub Ordered : ℕ → List ℕ → Type 0
Ordered now [] = Unit
Ordered now (t ∷ q) = (t ≤ now) × All (λ u. t ≤ u) q × Ordered now q

pub later-Ordered : (now later : ℕ) (q : List ℕ) → now ≤ later → Ordered now q → Ordered later q
unfolding Ordered
later-Ordered now later [] l o = tt
later-Ordered now later (t ∷ q) l o = (omega (arith, l, o.0), o.1, later-Ordered now later q l o.2)

pub append-Ordered : (now : ℕ) (q : List ℕ) → Ordered now q → Ordered now (q ++ now ∷ [])
unfolding Ordered
append-Ordered now [] o = (omega arith, tt, tt)
append-Ordered now (t ∷ q) o =
    (o.0, All-append (λ u. t ≤ u) q (now ∷ []) o.1 (o.0, tt), append-Ordered now q o.2)

module _ (window : ℕ) where
  -- How many times of a queue lie within the window before `now`.
  abbrev pub recent : ℕ → List ℕ → ℕ
  recent now = count (λ t. leb (now - t) window)

  pub evict-recent :
      (now later : ℕ) (q : List ℕ)
      → now ≤ later
      → recent later (evict window now q) ≡ recent later q
  unfolding evict
  evict-recent now later [] l = refl
  evict-recent now later (t ∷ q) l = ground (arith, evict-recent now later q l)

  pub recent-length : (now : ℕ) (q : List ℕ) → recent now q ≤ length q
  recent-length now [] = omega arith
  recent-length now (t ∷ q) = ground (arith, recent-length now q)

  pub recent-All :
      (now t : ℕ) (q : List ℕ) → now - t ≤ window → All (λ u. t ≤ u) q → recent now q ≡ length q
  recent-All now t [] h a = refl
  recent-All now t (u ∷ q) h a = ground (arith, a.0, recent-All now t q h a.1)

  -- After the eviction, the queue is what is recent.
  pub evict-length :
      (now : ℕ) (q : List ℕ) → Ordered now q → length (evict window now q) ≡ recent now q
  unfolding evict Ordered
  evict-length now [] o = refl
  evict-length now (t ∷ q) o = ground (arith, evict-length now q o.2, recent-All now t q, o.1)

  pub evict-Ordered : (now : ℕ) (q : List ℕ) → Ordered now q → Ordered now (evict window now q)
  unfolding Ordered evict
  evict-Ordered now [] o = tt
  evict-Ordered now (t ∷ q) o = elim (Bool-cases (ltb window (now - t))) [
    | inl e ↦
        subst (λ b. Ordered now (if b then evict window now q else t ∷ q)) (sym e)
          (evict-Ordered now q o.2)
    | inr e ↦ subst (λ b. Ordered now (if b then evict window now q else t ∷ q)) (sym e) o
  ]

  pub recent-append :
      (now : ℕ) (q : List ℕ) (t : ℕ) → recent now (q ++ t ∷ []) ≡ recent now q + recent now (t ∷ [])
  recent-append now [] t = omega arith
  recent-append now (u ∷ q) t = ground (arith, recent-append now q t)

  pub evict_shorter : (now : ℕ) (q : List ℕ) → length (evict window now q) ≤ length q
  unfolding evict
  evict_shorter now [] = omega arith
  evict_shorter now (t ∷ q) = ground (arith, evict_shorter now q)
