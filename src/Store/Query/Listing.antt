-- ===== src/Store/Query/Listing.antt =====
-- The listing of a dataset holds the latest version of each of its entries.
use mathlib.Core.List.{Memᴰ}
use mathlib.Core.List.Memᴰ.{head, tail}
use mathlib.Core.List.Memᴰ as Mem
use evorule_rule.Prelude.{
  String, ◌≡◌, refl, sym, ap, ◌∙◌, inl, inr, true, false, Option, none, some, List, [], ◌∷◌, arith,
  Bool-cases, eq_iff, str_eq, str_eq_refl, map,
}
use evorule_rule.External.{Externals}
use evorule_rule.Model.Entry.{RuleEntry}
use evorule_rule.Store.State.{Store}
use evorule_rule.Store.Query.{str_mem, distinct, collect, ids, get_latest_entry, list_entries}
use evorule_rule.Store.Query.Latest.{get_latest_entry-IsLatest}

distinct_keeps :
    (seen ss : List String) (id : String)
    → str_mem id ss ≡ true
    → str_mem id seen ≡ false
    → str_mem id (distinct seen ss) ≡ true
distinct_keeps seen [] id m n = m
distinct_keeps seen (s ∷ ss) id m n = ground (arith, eq_iff s id, distinct_keeps (s ∷ seen) ss id)

present_in : (ss : List String) (id : String) → str_mem id ss ≡ true → Memᴰ id ss
present_in [] id m = cc
present_in (s ∷ ss) id m = elim (Bool-cases (str_eq s id)) [
  | inl e ↦ head (ground (arith, eq_iff s id))
  | inr e ↦ tail (present_in ss id (ground arith))
]

collect_keeps : {A : Type 0} (os : List (Option A)) (a : A) → Memᴰ (some a) os → Memᴰ a (collect os)
collect_keeps [] a m = absurd (Mem.not-nil m)
collect_keeps (none ∷ os) a (head e) = cc
collect_keeps (none ∷ os) a (tail m) = collect_keeps os a m
collect_keeps (some b ∷ os) a (head e) = head (ground arith)
collect_keeps (some b ∷ os) a (tail m) = tail (collect_keeps os a m)

module _ (x : Externals) where
  ids_keep :
      (ds : String) (es : List (RuleEntry x)) (e : RuleEntry x)
      → e.dataset_id ≡ ds
      → Memᴰ e es
      → str_mem e.entry_id (ids x ds es) ≡ true
  ids_keep ds [] e d m = absurd (Mem.not-nil m)
  ids_keep ds (r ∷ es) e d (head p) = ground (
    arith,
    str_eq_refl ds,
    str_eq_refl e.entry_id,
    ap RuleEntry.dataset_id p,
    ap RuleEntry.entry_id p,
  )
  ids_keep ds (r ∷ es) e d (tail m) = ground (arith, ids_keep ds es e d m)

  -- The latest version of an entry is in the listing of its dataset.
  pub latest_listed :
      (ds id : String) (s : Store x) (e : RuleEntry x)
      → get_latest_entry x ds id s ≡ some e
      → Memᴰ e (list_entries x ds s)
  unfolding list_entries
  latest_listed ds id s e h =
      let l = get_latest_entry-IsLatest x ds id s e h in
      let m = ids_keep ds s.entries e l.of_dataset l.present in
      let read = λ (i : String). get_latest_entry x ds i s in
      let names = distinct [] (ids x ds s.entries) in
      collect_keeps (map read names) e (
        Mem.cast (sym h ∙ ap read (sym l.of_entry)) (
          Mem.map read (
            present_in names e.entry_id
              (distinct_keeps [] (ids x ds s.entries) e.entry_id m refl))))
