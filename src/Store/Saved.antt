-- ===== src/Store/Saved.antt =====
-- What the keeping of a content leaves in a table of snapshots of src/store/mod.rs.
use evorule_rule.Prelude.{
  String, ◌≡◌, refl, ap, Bool, true, false, List, [], ◌∷◌, ◌++◌, any, if◌then◌else◌,
}
use evorule_rule.External.{Externals}
use evorule_rule.Store.State.{Snapshot, snapshot_row}

module _ (x : Externals) (ds hash : String) (body : x.Json) (now : String) where
  -- The dataset has a snapshot under that digest already, or one with the body is appended.
  pub data Saved (snaps : List (Snapshot x)) : List (Snapshot x) → Type 0 where
    known : any (snapshot_row x ds hash) snaps ≡ true → Saved snaps snaps
    new :
        any (snapshot_row x ds hash) snaps ≡ false
        → Saved snaps (
            snaps
            ++ record { dataset_id = ds; content_hash = hash; body = body; created_at = now } ∷ [])

  -- `ON CONFLICT DO NOTHING`, for the two tables of snapshots.
  abbrev put : Bool → List (Snapshot x) → List (Snapshot x)
  put b snaps =
      if b
      then snaps
      else snaps
        ++ record { dataset_id = ds; content_hash = hash; body = body; created_at = now } ∷ []

  put_if-Saved :
      (snaps : List (Snapshot x)) (b : Bool)
      → any (snapshot_row x ds hash) snaps ≡ b
      → Saved snaps (put b snaps)
  put_if-Saved snaps true h = known h
  put_if-Saved snaps false h = new h

  pub put-Saved :
      (snaps : List (Snapshot x)) → Saved snaps (put (any (snapshot_row x ds hash) snaps) snaps)
  put-Saved snaps = put_if-Saved snaps (any (snapshot_row x ds hash) snaps) refl

  pub Saved-put :
      {snaps snaps' : List (Snapshot x)}
      → Saved snaps snaps'
      → put (any (snapshot_row x ds hash) snaps) snaps ≡ snaps'
  Saved-put {snaps = snaps} (known h) = ap (λ b. put b snaps) h
  Saved-put {snaps = snaps} (new h) = ap (λ b. put b snaps) h
