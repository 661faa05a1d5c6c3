-- ===== src/Store/Publish/Pending.antt =====
-- What awaits review is not published.
use evorule_rule.Prelude.{
  String, ◌≡◌, ◌≢◌, inl, inr, true, false, some, List, [], ◌∷◌, ok, arith, All, All-Mem, subst,
  Option-cases, update, str_eq_refl,
}
use evorule_rule.External.{Externals}
use evorule_rule.Model.Lifecycle.{active}
use evorule_rule.Model.Entry.{RuleEntry}
use evorule_rule.Store.State.{Store, Codec, rule_row, rule_key}
use evorule_rule.Store.Query.{get_latest_entry}
use evorule_rule.Store.Query.Latest.{get_latest_entry-IsLatest, get_latest_entry-none}
use evorule_rule.Store.Query.Listing.{latest_listed}
use evorule_rule.Store.Entries.{transition_entry_status_machine, stamp}
use evorule_rule.Store.Entries.Transitions.{machine-Released}
use evorule_rule.Store.Review.{has_pending_post_review}
use evorule_rule.Store.Review.Release.{t1_release_pending}
use evorule_rule.Store.Publish.{publish_dataset_with_cause}
use evorule_rule.Store.Publish.Gates.{publish_iff}

module _ (x : Externals) where
  -- A dataset with an entry that awaits review is not published.
  pending_unpublishable :
      (codec : Codec x) (ds id publisher at cause : String) (s s' : Store x) (e : RuleEntry x)
      → get_latest_entry x ds id s ≡ some e
      → has_pending_post_review x ds id s ≡ true
      → publish_dataset_with_cause x codec ds publisher at cause s ≢ ok s'
  pending_unpublishable codec ds id publisher at cause s s' e l p h =
      let (d, c, w) = (publish_iff x codec ds publisher at cause s s').0 h in
      let cleared = All-Mem _ _ e c.rules (latest_listed x ds id s e l) in
      cc (cleared.1, p, (get_latest_entry-IsLatest x ds id s e l).of_entry)

  -- A transition leaves the entry its rows.
  rows_stay :
      (ds id : String) (e : RuleEntry x) (at : String) (es : List (RuleEntry x))
      → All
          (λ r. rule_row x ds id r ≡ false)
          (update
            (rule_key x ds id e.version)
            (λ old. record old {
              status = some active;
              governance = some (stamp active at e.governance);
            })
            es)
      → All (λ r. rule_row x ds id r ≡ false) es
  rows_stay ds id e at [] h = tt
  rows_stay ds id e at (r ∷ es) h = (ground arith, rows_stay ds id e at es h.1)

  -- Once the machine gate has made an entry active with tier T1, its dataset is not published in
  -- the store that this leaves, whoever asks and for whatever cause.
  pub t1_release_unpublishable :
      (codec : Codec x) (ds id by at cause anchor publisher at' cause' : String)
      (s s' s'' : Store x)
      → transition_entry_status_machine x ds id active by at cause "T1" anchor s ≡ ok s'
      → publish_dataset_with_cause x codec ds publisher at' cause' s' ≢ ok s''
  t1_release_unpublishable codec ds id by at cause anchor publisher at' cause' s s' s'' h =
      let pending = t1_release_pending x ds id by at cause anchor s s' h in
      elim (Option-cases (get_latest_entry x ds id s')) [
        | inr (e, l) ↦ pending_unpublishable codec ds id publisher at' cause' s' s'' e l pending
        | inl n ↦
            let (e, r, w) = machine-Released x ds id active by at cause "T1" anchor s s' h in
            let gone = get_latest_entry-none x ds id s' n in
            let l = get_latest_entry-IsLatest x ds id s e r.1.latest in
            let was =
              rows_stay ds id e at s.entries
                (subst (λ t. All (λ q. rule_row x ds id q ≡ false) t.entries) w gone) in
            let f = All-Mem (λ q. rule_row x ds id q ≡ false) s.entries e was l.present in
            absurd (ground (arith, f, l.of_dataset, l.of_entry, str_eq_refl ds, str_eq_refl id))
      ]
