-- ===== src/Store/Review.antt =====
-- The review that follows a machine transition of tier T1 (src/store/mod.rs): which audit rows await
-- a human, whether an entry has one, and the ratification.
pub mod Release
use evorule_rule.Prelude.{
  ℕ, ◌+◌, String, Bool, true, false, ◌&&◌, Option, none, some, is_none, ltb, str_eq, count, update,
}
use evorule_rule.External.{Externals}
use evorule_rule.Store.State.{Store, HistoryRow, history_row}

-- The comparison of a column with a text or with 1: NULL equals nothing.
abbrev pub column_eq : Option String → String → Bool
column_eq none s = false
column_eq (some t) s = str_eq t s

abbrev pub column_set : Option Bool → Bool
column_set none = false
column_set (some b) = b

-- The `WHERE` clause that the queue, the publication gate and the ratification share.
abbrev pub unratified : HistoryRow → Bool
unratified r =
    str_eq r.to_state "Active"
    && column_eq r.tier "T1"
    && column_set r.post_review_required
    && is_none r.ratified_by

abbrev pub pending_row : String → String → HistoryRow → Bool
pending_row ds id r = history_row ds id r && unratified r

abbrev pub ratify_row : String → String → HistoryRow → HistoryRow
ratify_row by at r = record r { ratified_by = some by; ratified_at = some at }

module _ (x : Externals) where
  unfoldable pub has_pending_post_review : String → String → Store x → Bool
  has_pending_post_review ds id s =
      let n = count (pending_row ds id) s.entry_state_history in
      let n2 = count (pending_row ds id) s.knowledge_state_history in ltb 0 (n + n2)

  -- The number of rows written, and the store after it.
  unfoldable pub ratify_post_review : (ds id by at : String) → Store x → ℕ × Store x
  ratify_post_review ds id by at s = (
    count (pending_row ds id) s.entry_state_history
        + count (pending_row ds id) s.knowledge_state_history,
    record s {
      entry_state_history = update (pending_row ds id) (ratify_row by at) s.entry_state_history;
      knowledge_state_history =
          update (pending_row ds id) (ratify_row by at) s.knowledge_state_history;
    },
  )
