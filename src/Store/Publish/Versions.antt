-- ===== src/Store/Publish/Versions.antt =====
-- What the making of a new version keeps of the old one.
use mathlib.Core.List.{append-nil, append_assoc, Memᴰ}
use mathlib.Core.List.Memᴰ.{head, tail}
use evorule_rule.Prelude.{
  String, ◌≡◌, refl, update, find, str_eq, ◌&&◌, All-append, sym, ap, ◌∙◌, ◌↔◌, inl, inr, Bool,
  true, false, ok, some, [], ◌∷◌, ◌++◌, List, arith, All, any, map, any-append, Option-cases,
  Result-cases, if◌then◌else◌, str_eq_refl, Bool-cases, subst,
}
use evorule_rule.External.{Externals, BumpKind}
use evorule_rule.Model.Lifecycle.{Lifecycle, draft}
use evorule_rule.Model.Entry.{RuleEntry, KnowledgeEntry}
use evorule_rule.Model.Dataset.{RuleDataset, Meta}
use evorule_rule.Store.State.{Store, VersionSnapshot, rule, knowledge}
use evorule_rule.Store.Datasets.{is_dataset, touched}
use evorule_rule.Store.Query.{get_dataset, list_entries, list_knowledge_entries}
use evorule_rule.Store.Publish.{
  same_snapshot, put_version_snapshots, rule_snapshot, knowledge_snapshot, version_snapshots,
  versioned, redrafted, create_dataset_version,
}

module _ {A B : Type 0} (P : B → Type 0) where
  map-All : (f : A → B) (xs : List A) → ((a : A) → Memᴰ a xs → P (f a)) → All P (map f xs)
  map-All f [] k = tt
  map-All f (a ∷ xs) k = (k a (head refl), map-All f xs (λ b m. k b (tail m)))

  All-map : (f : A → B) (xs : List A) → All P (map f xs) → All (λ a. P (f a)) xs
  All-map f [] h = tt
  All-map f (a ∷ xs) h = (h.0, All-map f xs h.1)

append-All : {A : Type 0} (P : A → Type 0) (xs ys : List A) → All P (xs ++ ys) → All P xs × All P ys
append-All P [] ys h = (tt, h)
append-All P (a ∷ xs) ys h = let (front, rest) = append-All P xs ys h.1 in ((h.0, front), rest)

module _ (x : Externals) where
  pub record Bumped (id : String) (kind : BumpKind) (s : Store x) (ds : RuleDataset x)
      (v : x.Versioning) : Type 0 where
    pub found : get_dataset x id s ≡ some ds
    pub chain : x.validate_versioning ds.versioning ≡ ok tt
    pub bumped : x.bump ds.versioning kind ≡ ok v

  create_version-Bumped :
      (id : String) (kind : BumpKind) (by at : String) (s s' : Store x) (name : String)
      → create_dataset_version x id kind by at s ≡ ok (name, s')
      → (ds : RuleDataset x) × (v : x.Versioning) × Bumped id kind s ds v
        × (name ≡ x.current v)
        × (s' ≡ versioned x id kind by at ds v s)
  unfolding create_dataset_version
  create_version-Bumped id kind by at s s' name h = elim (Option-cases (get_dataset x id s)) [
    | inl n ↦ ground arith
    | inr (ds, f) ↦ elim (Result-cases (x.bump ds.versioning kind)) [
      | inl (m, e) ↦ ground arith
      | inr (v, e) ↦ (
        ds,
        v,
        record { found = f; chain = ground arith; bumped = e },
        ground arith,
        ground arith,
      )
    ]
  ]

  Bumped-created :
      (id : String) (kind : BumpKind) (by at : String) (s : Store x) (ds : RuleDataset x)
      (v : x.Versioning)
      → Bumped id kind s ds v
      → create_dataset_version x id kind by at s
        ≡ ok (x.current v, versioned x id kind by at ds v s)
  unfolding create_dataset_version
  Bumped-created id kind by at s ds v b = ground (arith, b.found, b.chain, b.bumped)

  -- A new version is made exactly for a dataset that exists, whose chain of versions is intact and
  -- can be continued; the name returned is that of the new version.
  pub create_dataset_version_iff :
      (id : String) (kind : BumpKind) (by at : String) (s s' : Store x) (name : String)
      → (create_dataset_version x id kind by at s ≡ ok (name, s')) ↔ (
          (ds : RuleDataset x) × (v : x.Versioning) × Bumped id kind s ds v
          × (name ≡ x.current v)
          × (s' ≡ versioned x id kind by at ds v s))
  create_dataset_version_iff id kind by at s s' name = (
    create_version-Bumped id kind by at s s' name,
    λ (ds, v, b, n, w). Bumped-created id kind by at s ds v b ∙ ground (arith, ap (λ m. m) n, w),
  )

  put_one :
      (r q : VersionSnapshot x) (old : List (VersionSnapshot x)) (b : Bool)
      → any (same_snapshot x r) old ≡ true
      → any (same_snapshot x r) (if b then old else old ++ q ∷ []) ≡ true
  put_one r q old true h = h
  put_one r q old false h = ground (arith, any-append (same_snapshot x r) old (q ∷ []))

  -- A snapshot that is there stays.
  put_keeps :
      (r : VersionSnapshot x) (rs old : List (VersionSnapshot x))
      → any (same_snapshot x r) old ≡ true
      → any (same_snapshot x r) (put_version_snapshots x rs old) ≡ true
  put_keeps r [] old h = h
  put_keeps r (q ∷ rs) old h = put_keeps r rs _ (put_one r q old (any (same_snapshot x q) old) h)

  put_self :
      (r : VersionSnapshot x) (old : List (VersionSnapshot x))
      → any (same_snapshot x r) (if any (same_snapshot x r) old then old else old ++ r ∷ []) ≡ true
  put_self r old = ground (
    arith,
    any-append (same_snapshot x r) old (r ∷ []),
    str_eq_refl r.dataset_id,
    str_eq_refl r.version,
    str_eq_refl r.entry_id,
  )

  -- Every snapshot of the batch is there afterwards.
  put-All :
      (rs old : List (VersionSnapshot x))
      → All (λ r. any (same_snapshot x r) (put_version_snapshots x rs old) ≡ true) rs
  put-All [] old = tt
  put-All (r ∷ rs) old = (put_keeps r rs _ (put_self r old), put-All rs _)

  -- What was there before is there in front, and what comes after is of the batch.
  put_prefix :
      (P : VersionSnapshot x → Type 0) (rs old : List (VersionSnapshot x))
      → All P rs
      → (more : List (VersionSnapshot x)) × (put_version_snapshots x rs old ≡ old ++ more)
        × All P more
  put_prefix P [] old a = ([], sym (append-nil old), tt)
  put_prefix P (r ∷ rs) old a = elim (Bool-cases (any (same_snapshot x r) old)) [
    | inl e ↦
        let (more, p, q) = put_prefix P rs old a.1 in
        (more, ap (λ b. put_version_snapshots x rs (if b then old else old ++ r ∷ [])) e ∙ p, q)
    | inr e ↦
        let (more, p, q) = put_prefix P rs (old ++ r ∷ []) a.1 in
        (
          r ∷ more,
          ap (λ b. put_version_snapshots x rs (if b then old else old ++ r ∷ [])) e
              ∙ p
              ∙ append_assoc old (r ∷ []) more,
          (a.0, q),
        )
  ]

  -- A snapshot of a latest entry of the dataset, with the digest of its content.
  pub data IsOfEntry (id old_version by at : String) (s : Store x)
      : VersionSnapshot x → Type 0 where
    of_rule :
        (e : RuleEntry x)
        → Memᴰ e (list_entries x id s)
        → IsOfEntry id old_version by at s (record {
          dataset_id = id;
          version = old_version;
          entry_id = e.entry_id;
          content_hash = x.digest e.rule_body;
          content = rule e;
          created_by = by;
          created_at = at;
        })
    of_knowledge :
        (e : KnowledgeEntry x)
        → Memᴰ e (list_knowledge_entries x id s)
        → IsOfEntry id old_version by at s (record {
          dataset_id = id;
          version = old_version;
          entry_id = e.entry_id;
          content_hash = x.digest e.payload;
          content = knowledge e;
          created_by = by;
          created_at = at;
        })

  batch-IsOfEntry :
      (id old_version by at : String) (s : Store x)
      → All (IsOfEntry id old_version by at s) (version_snapshots x id old_version by at s)
  batch-IsOfEntry id old_version by at s =
      All-append _ (map (rule_snapshot x id old_version by at) (list_entries x id s)) _
        (map-All _ (rule_snapshot x id old_version by at) (list_entries x id s) of_rule)
        (map-All _ (knowledge_snapshot x id old_version by at) (list_knowledge_entries x id s)
          of_knowledge)

  -- The entry has a snapshot under the version.
  abbrev pub has_snapshot : (id version entry : String) → List (VersionSnapshot x) → Bool
  has_snapshot id version entry rows =
      any (λ q. str_eq q.dataset_id id && str_eq q.version version && str_eq q.entry_id entry) rows

  abbrev redated : String → Lifecycle → x.Versioning → Meta → RuleDataset x → RuleDataset x
  redated id life v meta d = record d { versioning = v; lifecycle = life; meta = meta }

  found_redated :
      (id : String) (life : Lifecycle) (v : x.Versioning) (meta : Meta)
      (rows : List (RuleDataset x)) (d : RuleDataset x)
      → find (is_dataset x id) rows ≡ some d
      → find (is_dataset x id) (update (is_dataset x id) (redated id life v meta) rows)
        ≡ some (redated id life v meta d)
  found_redated id life v meta [] d h = cc
  found_redated id life v meta (r ∷ rows) d h = elim (Bool-cases (is_dataset x id r)) [
    | inl e ↦ ground (arith, e, h)
    | inr e ↦ ground (arith, e, h, found_redated id life v meta rows d)
  ]

  version-redated :
      (id : String) (kind : BumpKind) (by at : String) (ds : RuleDataset x) (v : x.Versioning)
      (s : Store x)
      → get_dataset x id s ≡ some ds
      → (d : RuleDataset x) × (get_dataset x id (versioned x id kind by at ds v s) ≡ some d)
        × (d.lifecycle.status ≡ draft)
        × (d.versioning ≡ v)
  unfolding get_dataset
  version-redated id kind by at ds v s f = (
    redated id (redrafted x kind (x.current v) by at ds) v (touched x by at ds) ds,
    found_redated id (redrafted x kind (x.current v) by at ds) v (touched x by at ds) s.datasets ds
        f,
    refl,
    refl,
  )

  -- The making of a new version starts from a dataset whose chain of versions is intact and can be
  -- continued, and returns the next version's name; the dataset is then a draft of that version.
  -- Every version snapshot that was there is there in front and as it was; each one after them is
  -- of a latest entry of the dataset, rule or knowledge, under the version that is replaced, with
  -- the digest of its content; and every latest entry has one under that version.
  pub create_version-snapshots :
      (id : String) (kind : BumpKind) (by at : String) (s s' : Store x) (name : String)
      → create_dataset_version x id kind by at s ≡ ok (name, s')
      → (ds : RuleDataset x) × (v : x.Versioning) × Bumped id kind s ds v
        × (name ≡ x.current v)
        × ((d : RuleDataset x) × (get_dataset x id s' ≡ some d)
            × (d.lifecycle.status ≡ draft)
            × (d.versioning ≡ v))
        × ((more : List (VersionSnapshot x)) × (s'.dataset_version_snapshots
              ≡ s.dataset_version_snapshots ++ more)
            × All (IsOfEntry id (x.current ds.versioning) by at s) more)
        × All
            (λ e.
              has_snapshot id (x.current ds.versioning) e.entry_id s'.dataset_version_snapshots
              ≡ true)
            (list_entries x id s)
        × All
            (λ e.
              has_snapshot id (x.current ds.versioning) e.entry_id s'.dataset_version_snapshots
              ≡ true)
            (list_knowledge_entries x id s)
  create_version-snapshots id kind by at s s' name h =
      let (ds, v, b, n, w) = create_version-Bumped id kind by at s s' name h in
      let old = x.current ds.versioning in
      let batch = version_snapshots x id old by at s in
      let e = ap Store.dataset_version_snapshots w in
      let (more, p, q) =
        put_prefix (IsOfEntry id old by at s) batch s.dataset_version_snapshots
          (batch-IsOfEntry id old by at s) in
      let all =
        subst (λ rows. All (λ r. any (same_snapshot x r) rows ≡ true) batch) (sym e)
          (put-All batch s.dataset_version_snapshots) in
      let (front, rest) =
        append-All _ (map (rule_snapshot x id old by at) (list_entries x id s)) _ all in
      (
        ds,
        v,
        b,
        n,
        subst
            (λ t.
              (d : RuleDataset x) × (get_dataset x id t ≡ some d)
              × (d.lifecycle.status ≡ draft)
              × (d.versioning ≡ v))
            (sym w) (version-redated id kind by at ds v s b.found),
        (more, e ∙ p, q),
        All-map _ (rule_snapshot x id old by at) (list_entries x id s) front,
        All-map _ (knowledge_snapshot x id old by at) (list_knowledge_entries x id s) rest,
      )
