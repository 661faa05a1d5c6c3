-- ===== src/Store/Review/Release.antt =====
-- A machine release of tier T1 keeps its dataset from publication until a human ratifies it.
use evorule_rule.Prelude.{
  ◌+◌, String, ◌≡◌, refl, ap, Bool, true, false, ◌&&◌, some, List, [], ◌∷◌, ◌++◌, ok, arith, count,
  update, str_eq, str_eq_refl, eq_iff, ltb, unwrap_or,
}
use evorule_rule.External.{Externals}
use evorule_rule.Model.Lifecycle.{active}
use evorule_rule.Store.State.{Store, HistoryRow}
use evorule_rule.Store.Entries.{transition_entry_status_machine, audit_row}
use evorule_rule.Store.Entries.Transitions.{machine-Released}
use evorule_rule.Store.Review.{pending_row, ratify_row, has_pending_post_review, ratify_post_review}

count-append :
    (p : HistoryRow → Bool) (xs ys : List HistoryRow) → count p (xs ++ ys) ≡ count p xs + count p ys
count-append p [] ys = omega arith
count-append p (x ∷ xs) ys = ground (arith, count-append p xs ys)

-- A ratified row awaits no review.
ratified_none :
    (ds id by at : String) (rows : List HistoryRow)
    → count (pending_row ds id) (update (pending_row ds id) (ratify_row by at) rows) ≡ 0
ratified_none ds id by at [] = refl
ratified_none ds id by at (r ∷ rows) = ground (arith, ratified_none ds id by at rows)

-- What awaits review for another entry still does.
ratified_other :
    (ds id ds' id' by at : String) (rows : List HistoryRow)
    → (str_eq ds ds' && str_eq id id') ≡ false
    → count (pending_row ds' id') (update (pending_row ds id) (ratify_row by at) rows)
      ≡ count (pending_row ds' id') rows
ratified_other ds id ds' id' by at [] h = refl
ratified_other ds id ds' id' by at (r ∷ rows) h =
    ground (
      arith,
      eq_iff r.dataset_id ds,
      eq_iff r.entry_id id,
      ratified_other ds id ds' id' by at rows h,
    )

module _ (x : Externals) where
  -- After a ratification the entry awaits no review, the other entries as before, and the number
  -- returned is positive exactly where the entry awaited one.
  pub ratify-has_pending :
      (ds id by at : String) (s : Store x)
      → (has_pending_post_review x ds id (ratify_post_review x ds id by at s).1 ≡ false)
        × (has_pending_post_review x ds id s ≡ ltb 0 (ratify_post_review x ds id by at s).0)
        × ((ds' id' : String)
            → (str_eq ds ds' && str_eq id id') ≡ false
            → has_pending_post_review x ds' id' (ratify_post_review x ds id by at s).1
              ≡ has_pending_post_review x ds' id' s)
  unfolding has_pending_post_review ratify_post_review
  ratify-has_pending ds id by at s = (
    ground (
      arith,
      ratified_none ds id by at s.entry_state_history,
      ratified_none ds id by at s.knowledge_state_history,
    ),
    refl,
    λ ds' id' n. ground (
      arith,
      ratified_other ds id ds' id' by at s.entry_state_history n,
      ratified_other ds id ds' id' by at s.knowledge_state_history n,
    ),
  )

  -- A release to the active state with tier T1 leaves the entry awaiting review.
  pub t1_release_pending :
      (ds id by at cause anchor : String) (s s' : Store x)
      → transition_entry_status_machine x ds id active by at cause "T1" anchor s ≡ ok s'
      → has_pending_post_review x ds id s' ≡ true
  unfolding has_pending_post_review
  t1_release_pending ds id by at cause anchor s s' h =
      let (e, r, w) = machine-Released x ds id active by at cause "T1" anchor s s' h in
      let row = audit_row x ds id e (unwrap_or e.status active) active by at cause (some "T1") in
      ground (
        arith,
        count-append (pending_row ds id) s.entry_state_history (row ∷ []),
        str_eq_refl ds,
        str_eq_refl id,
        ap Store.entry_state_history w,
      )
