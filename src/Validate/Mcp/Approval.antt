-- ===== src/Validate/Mcp/Approval.antt =====
-- What the approval of a proposed server adds to its entry, `fill_approval_attribution` of
-- src/model/mcp_servers.rs, is what an entry in force needs.
use evorule_rule.Prelude.{
  subst, ◌||◌, ◌≡◌, refl, sym, ap, ◌∙◌, inl, inr, Bool, true, false, not, Option, none, some, List,
  Text, codes, Result, ok, err, ◌>>=◌, ◌>>◌, ok_or, if◌then◌else◌, Bool-cases, Option-cases, arith,
}
use evorule_rule.External.{Externals}
use evorule_rule.Chars.{text_eq}
use evorule_rule.Validate.Mcp.{
  McpError, not_an_object, missing_command, and_then, get, insert, is_stated, get_str,
}
use evorule_rule.Validate.Mcp.Servers.{
  attribution, is_blank, fill, filled, args_pattern_of, stated_comment, same_key, fill_object,
  missing_in, validate_approval_entry, canonical_server_key, validate_mcp_server_entry,
  validate_mcp_server_payload, fill_approval_attribution, approval_attribution_missing,
}
use evorule_rule.Validate.Mcp.Fields.{get-insert, get-insert_other, DistinctKeys, insert-Distinct}

-- Where the first run returns, so does the second.
then_mono :
    (r k1 k2 : Result McpError (Unit {0}))
    → (k1 ≡ ok tt → k2 ≡ ok tt)
    → r >> k1 ≡ ok tt
    → r >> k2 ≡ ok tt
then_mono (ok done) k1 k2 h p = h p
then_mono (err e) k1 k2 h p = ground (arith, p)

then_last : (r k : Result McpError (Unit {0})) → r >> k ≡ ok tt → k ≡ ok tt
then_last (ok done) k p = p
then_last (err e) k p = ground (arith, p)

then_first : (r k : Result McpError (Unit {0})) → r ≡ ok tt → r >> k ≡ k
then_first r k p = ap (λ r. r >> k) p

bind_mono :
    {A : Type 0} (r : Result McpError A) (f g : A → Result McpError (Unit {0}))
    → ((a : A) → f a ≡ ok tt → g a ≡ ok tt)
    → (r >>= f) ≡ ok tt
    → (r >>= g) ≡ ok tt
bind_mono (ok a) f g h p = h a p
bind_mono (err e) f g h p = ground (arith, p)

module _ (x : Externals) where
  -- Strings of `serde_json` are read as they were made. The object of a value has each key once, and
  -- an object that is made of fields with each key once has these fields, in whatever order.
  pub record ReadsBack : Type 0 where
    pub string_read : (s : Text) → x.as_str (x.of_str s) ≡ some s
    pub keys_differ :
        (v : x.Json) (obj : List (Text × x.Json)) → x.as_object v ≡ some obj → DistinctKeys obj
    pub object_read :
        (obj : List (Text × x.Json))
        → DistinctKeys obj
        → (obj' : List (Text × x.Json)) × (x.as_object (x.of_object obj) ≡ some obj')
          × ((key : Text) → get key obj' ≡ get key obj)

  -- The tests of an entry, on the fields that they read.
  abbrev checks :
      (required : Bool) (command : Option Text) (args : Option x.Json) (comment : Option Text)
      (by at ref key : Option Text)
      → Result McpError (Unit {0})
  checks required command args comment by at ref key = ok_or command missing_command >>= (λ command.
      args_pattern_of x args >>= (λ args.
        validate_approval_entry command args
        >> (stated_comment x comment
            >> (attribution x required (codes "approved_by") by
                >> (attribution x required (codes "approved_at") at
                    >> (attribution x required (codes "approval_ref") ref
                        >> same_key x (canonical_server_key x command args) key))))))

  -- Other attributions in place of accepted ones.
  checks_attributed :
      (command : Option Text) (args : Option x.Json)
      (comment by at ref by2 at2 ref2 key : Option Text)
      → attribution x true (codes "approved_by") by2 ≡ ok tt
      → attribution x true (codes "approved_at") at2 ≡ ok tt
      → attribution x true (codes "approval_ref") ref2 ≡ ok tt
      → checks false command args comment by at ref key ≡ ok tt
      → checks true command args comment by2 at2 ref2 key ≡ ok tt
  checks_attributed command args comment by at ref by2 at2 ref2 key p q r passed =
      bind_mono (ok_or command missing_command) _ _
        (λ c. bind_mono (args_pattern_of x args) _ _ (λ a.
          then_mono (validate_approval_entry c a) _ _ (
            then_mono (stated_comment x comment) _ _ (λ h.
              let last = then_last (attribution x false (codes "approval_ref") ref) _ (
                then_last (attribution x false (codes "approved_at") at) _
                  (then_last (attribution x false (codes "approved_by") by) _ h)) in
              then_first _ _ p ∙ (then_first _ _ q ∙ (then_first _ _ r ∙ last))))))
        passed

  abbrev checks_of : (required : Bool) → List (Text × x.Json) → Result McpError (Unit {0})
  checks_of required obj =
      checks required (get_str x (codes "command") obj) (get (codes "args_pattern") obj)
        (get_str x (codes "comment") obj) (get_str x (codes "approved_by") obj)
        (get_str x (codes "approved_at") obj) (get_str x (codes "approval_ref") obj)
        (get_str x (codes "server_key") obj)

  same_fields :
      (by at ref : Option Text) (c c2 a a2 m m2 k k2 : Option x.Json)
      → c ≡ c2
      → a ≡ a2
      → m ≡ m2
      → k ≡ k2
      → checks true (and_then c x.as_str) a (and_then m x.as_str) by at ref (and_then k x.as_str)
        ≡ checks true
            (and_then c2 x.as_str)
            a2
            (and_then m2 x.as_str)
            by
            at
            ref
            (and_then k2 x.as_str)
  same_fields by at ref c c2 a a2 m m2 k k2 p q r s = cc

  same_parts :
      (command : Option Text) (args : Option x.Json) (comment key : Option Text)
      (b b2 a a2 r r2 : Option x.Json)
      → b ≡ b2
      → a ≡ a2
      → r ≡ r2
      → checks true command args comment
          (and_then b x.as_str)
          (and_then a x.as_str)
          (and_then r x.as_str)
          key
        ≡ checks true command args comment
            (and_then b2 x.as_str)
            (and_then a2 x.as_str)
            (and_then r2 x.as_str)
            key
  same_parts command args comment key b b2 a a2 r r2 p q t = cc

  get_str-fill_other :
      (key other v : Text) (obj : List (Text × x.Json))
      → text_eq key other ≡ false
      → get other (fill x key v obj) ≡ get other obj
  get_str-fill_other key other v obj apart = elim (Bool-cases (is_blank x (get_str x key obj))) [
    | inl e ↦
        ap (λ b. get other (if b then insert key (x.of_str v) obj else obj)) e
        ∙ get-insert_other key other (x.of_str v) obj apart
    | inr e ↦ ap (λ b. get other (if b then insert key (x.of_str v) obj else obj)) e
  ]

  stated-attribution :
      (key : Text) (o : Option Text) → is_blank x o ≡ false → attribution x true key o ≡ ok tt
  stated-attribution key none p = ground (arith, p)
  stated-attribution key (some s) p = ground (arith, p)

  module _ (reads : ReadsBack) where
    is_blank-fill :
        (key v : Text) (obj : List (Text × x.Json))
        → is_stated v ≡ true
        → is_blank x (get_str x key (fill x key v obj)) ≡ false
    is_blank-fill key v obj stated = elim (Bool-cases (is_blank x (get_str x key obj))) [
      | inl e ↦
          ap (λ b. is_blank x (get_str x key (if b then insert key (x.of_str v) obj else obj))) e
          ∙ (ap (λ o. is_blank x (and_then o x.as_str)) (get-insert key (x.of_str v) obj)
              ∙ (ap (λ o. is_blank x o) (reads.string_read v) ∙ ap (λ b. not b) stated))
      | inr e ↦
          ap (λ b. is_blank x (get_str x key (if b then insert key (x.of_str v) obj else obj))) e
          ∙ e
    ]

    fill-Distinct :
        (key v : Text) (obj : List (Text × x.Json))
        → DistinctKeys obj
        → DistinctKeys (fill x key v obj)
    fill-Distinct key v obj d = elim (Bool-cases (is_blank x (get_str x key obj))) [
      | inl e ↦
          subst (λ b. DistinctKeys (if b then insert key (x.of_str v) obj else obj)) (sym e)
            (insert-Distinct key (x.of_str v) obj d)
      | inr e ↦ subst (λ b. DistinctKeys (if b then insert key (x.of_str v) obj else obj)) (sym e) d
    ]

    filled-Distinct :
        (by at ref : Text) (obj : List (Text × x.Json))
        → DistinctKeys obj
        → DistinctKeys (filled x by at ref obj)
    filled-Distinct by at ref obj d =
        fill-Distinct (codes "approval_ref") ref _
          (fill-Distinct (codes "approved_at") at _ (fill-Distinct (codes "approved_by") by obj d))

    same_missing :
        (b b2 a a2 r r2 : Option x.Json)
        → b ≡ b2
        → a ≡ a2
        → r ≡ r2
        → (is_blank x (and_then b x.as_str)
            || (is_blank x (and_then a x.as_str) || (is_blank x (and_then r x.as_str) || false)))
          ≡ (is_blank x (and_then b2 x.as_str)
              || (is_blank x (and_then a2 x.as_str)
                  || (is_blank x (and_then r2 x.as_str) || false)))
    same_missing b b2 a a2 r r2 p q t = cc

    -- The checks read the fields alone.
    same_checks :
        (obj obj' : List (Text × x.Json))
        → ((key : Text) → get key obj' ≡ get key obj)
        → checks_of true obj' ≡ checks_of true obj
    same_checks obj obj' same =
        same_fields (get_str x (codes "approved_by") obj') (get_str x (codes "approved_at") obj')
          (get_str x (codes "approval_ref") obj') _ _ _ _ _ _ _ _ (same (codes "command"))
          (same (codes "args_pattern")) (same (codes "comment")) (same (codes "server_key"))
        ∙ same_parts (get_str x (codes "command") obj) (get (codes "args_pattern") obj)
            (get_str x (codes "comment") obj) (get_str x (codes "server_key") obj) _ _ _ _ _ _
            (same (codes "approved_by")) (same (codes "approved_at")) (same (codes "approval_ref"))

    module _ (by at ref : Text) (obj : List (Text × x.Json)) where
      by_filled :
          is_stated by ≡ true
          → is_blank x (get_str x (codes "approved_by") (filled x by at ref obj)) ≡ false
      by_filled stated =
          let o1 = fill x (codes "approved_by") by obj in
          let o2 = fill x (codes "approved_at") at o1 in
          ap (λ o. is_blank x (and_then o x.as_str))
            (get_str-fill_other (codes "approval_ref") (codes "approved_by") ref o2 refl
              ∙ get_str-fill_other (codes "approved_at") (codes "approved_by") at o1 refl)
          ∙ is_blank-fill (codes "approved_by") by obj stated

      at_filled :
          is_stated at ≡ true
          → is_blank x (get_str x (codes "approved_at") (filled x by at ref obj)) ≡ false
      at_filled stated =
          let o1 = fill x (codes "approved_by") by obj in
          let o2 = fill x (codes "approved_at") at o1 in
          ap (λ o. is_blank x (and_then o x.as_str))
            (get_str-fill_other (codes "approval_ref") (codes "approved_at") ref o2 refl)
          ∙ is_blank-fill (codes "approved_at") at o1 stated

      ref_filled :
          is_stated ref ≡ true
          → is_blank x (get_str x (codes "approval_ref") (filled x by at ref obj)) ≡ false
      ref_filled stated =
          is_blank-fill (codes "approval_ref") ref
            (fill x (codes "approved_at") at (fill x (codes "approved_by") by obj)) stated

      -- The other fields are untouched.
      get-filled :
          (key : Text)
          → text_eq (codes "approved_by") key ≡ false
          → text_eq (codes "approved_at") key ≡ false
          → text_eq (codes "approval_ref") key ≡ false
          → get key (filled x by at ref obj) ≡ get key obj
      get-filled key p q r =
          let o1 = fill x (codes "approved_by") by obj in
          let o2 = fill x (codes "approved_at") at o1 in
          get_str-fill_other (codes "approval_ref") key ref o2 r
          ∙ (get_str-fill_other (codes "approved_at") key at o1 q
              ∙ get_str-fill_other (codes "approved_by") key by obj p)

      filled-checks :
          (is_stated by ≡ true) × (is_stated at ≡ true) × (is_stated ref ≡ true)
          → checks_of false obj ≡ ok tt
          → checks_of true (filled x by at ref obj) ≡ ok tt
      filled-checks (b, a, r) passed =
          let new = filled x by at ref obj in
          let part = λ (key : Text). get_str x key new in
          same_fields (part (codes "approved_by")) (part (codes "approved_at"))
            (part (codes "approval_ref")) _ _ _ _ _ _ _ _
            (get-filled (codes "command") refl refl refl)
            (get-filled (codes "args_pattern") refl refl refl)
            (get-filled (codes "comment") refl refl refl)
            (get-filled (codes "server_key") refl refl refl)
          ∙ checks_attributed (get_str x (codes "command") obj) (get (codes "args_pattern") obj)
              (get_str x (codes "comment") obj) (get_str x (codes "approved_by") obj)
              (get_str x (codes "approved_at") obj) (get_str x (codes "approval_ref") obj)
              (part (codes "approved_by")) (part (codes "approved_at"))
              (part (codes "approval_ref")) (get_str x (codes "server_key") obj)
              (stated-attribution (codes "approved_by") _ (by_filled b))
              (stated-attribution (codes "approved_at") _ (at_filled a))
              (stated-attribution (codes "approval_ref") _ (ref_filled r)) passed

    -- Where a proposed entry is accepted without an approval, and the approver, the time and the
    -- reference are not blank, the entry that the approval fills in is accepted with one, and none
    -- of the three is missing in it.
    pub fill_approval_attribution-validate :
        (by at ref : Text) (payload : x.Json)
        → is_stated by ≡ true
        → is_stated at ≡ true
        → is_stated ref ≡ true
        → validate_mcp_server_entry x payload false ≡ ok tt
        → (validate_mcp_server_payload x (fill_approval_attribution x by at ref payload) ≡ ok tt)
          × (approval_attribution_missing x (fill_approval_attribution x by at ref payload) ≡ false)
    unfolding validate_mcp_server_entry validate_mcp_server_payload fill_approval_attribution
        approval_attribution_missing
    fill_approval_attribution-validate by at ref payload b a r passed =
        elim (Option-cases (x.as_object payload)) [
          | inl none_e ↦
              ground (arith, ap (λ o. ok_or o not_an_object >>= checks_of false) none_e, passed)
          | inr (obj, e) ↦
              let p = sym (ap (λ o. ok_or o not_an_object >>= checks_of false) e) ∙ passed in
              let new = filled x by at ref obj in
              let (new', made, same) =
                reads.object_read new
                  (filled-Distinct by at ref obj (reads.keys_differ payload obj e)) in
              let read = ap (λ o. x.as_object (fill_object x by at ref payload o)) e ∙ made in
              (
                ap (λ o. ok_or o not_an_object >>= checks_of true) read
                    ∙ same_checks new new' same
                    ∙ filled-checks by at ref obj (b, a, r) p,
                ap (missing_in x) read
                    ∙ same_missing (get (codes "approved_by") new') _
                        (get (codes "approved_at") new') _ (get (codes "approval_ref") new') _
                        (same (codes "approved_by")) (same (codes "approved_at"))
                        (same (codes "approval_ref"))
                    ∙ ground (
                      arith,
                      by_filled by at ref obj b,
                      at_filled by at ref obj a,
                      ref_filled by at ref obj r,
                    ),
              )
        ]
