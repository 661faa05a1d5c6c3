-- ===== src/Api/Page/Walk.antt =====
-- Following the cursors.
use evorule_rule.Prelude.{
  ℕ, zero, suc, ◌+◌, ◌≤◌, ◌≡◌, refl, sym, ap, ◌∙◌, inl, inr, Bool-cases, Option, none, some, List,
  [], ◌∷◌, ◌++◌, arith, length, drop, take, ltb, unwrap_or,
}
use evorule_rule.Api.Page.{page_limit, paginate}

-- A client that asks for a page and then for the next one, as long as there is a cursor, for at most
-- `n` pages.
pub follow : {A : Type 0} → (n : ℕ) → List A → (limit : Option ℕ) (offset : ℕ) → List A
follow zero items limit offset = []
follow (suc n) items limit offset =
    let page = paginate items limit (some offset) in
    page.items ++ (elim page.next_cursor [ none ↦ [] | some next ↦ follow n items limit next ])

page_limit-pos : (limit : Option ℕ) → 1 ≤ page_limit limit
unfolding page_limit
page_limit-pos limit = omega arith

page_limit-le : (limit : Option ℕ) → page_limit limit ≤ 100
unfolding page_limit
page_limit-le limit = omega arith

module _ {A : Type 0} where
  take-drop : (n : ℕ) (items : List A) → take n items ++ drop n items ≡ items
  take-drop zero items = refl
  take-drop (suc n) [] = refl
  take-drop (suc n) (x ∷ items) = ap (λ l. x ∷ l) (take-drop n items)

  drop-nil : (n : ℕ) → drop {A = A} n [] ≡ []
  drop-nil zero = refl
  drop-nil (suc n) = refl

  drop-suc : (k o : ℕ) (x : A) (items : List A) → drop (suc o + k) (x ∷ items) ≡ drop (o + k) items
  drop-suc k o x items = ap (λ n. drop n (x ∷ items)) shifted
    where
      shifted : suc o + k ≡ suc (o + k)
      shifted = omega arith

  drop-drop : (k o : ℕ) (items : List A) → drop k (drop o items) ≡ drop (o + k) items
  drop-drop k zero items = ap (λ n. drop n items) (omega arith)
  drop-drop k (suc o) [] = drop-nil k ∙ sym (drop-nil (suc o + k))
  drop-drop k (suc o) (x ∷ items) = drop-drop k o items ∙ sym (drop-suc k o x items)

  -- Past the end nothing is left.
  drop-all : (n : ℕ) (items : List A) → length items ≤ n → drop n items ≡ []
  drop-all zero [] h = refl
  drop-all zero (x ∷ items) h = absurd (omega arith)
  drop-all (suc n) [] h = refl
  drop-all (suc n) (x ∷ items) h = drop-all n items (omega arith)

  length-take-le : (n : ℕ) (items : List A) → length (take n items) ≤ n
  length-take-le zero items = omega arith
  length-take-le (suc n) [] = omega arith
  length-take-le (suc n) (x ∷ items) = omega (arith, length-take-le n items)

  follow-drop :
      (n : ℕ) (items : List A) (limit : Option ℕ) (offset : ℕ)
      → length items ≤ offset + n
      → follow n items limit offset ≡ drop offset items
  unfolding follow paginate
  follow-drop zero items limit offset h = sym (drop-all offset items (omega arith))
  follow-drop (suc n) items limit offset h =
      let l = page_limit limit in
      let joined = take-drop l (drop offset items) in
      let rest = drop-drop l offset items in
      elim (Bool-cases (ltb (offset + l) (length items))) [
        | inl more ↦
            let next =
              follow-drop n items limit (offset + l) (omega (arith, h, page_limit-pos limit)) in
            ground (arith, more, next, joined, rest)
        | inr last ↦
            let gone = drop-all (offset + l) items (ground (arith, last)) in
            ground (arith, last, gone, joined, rest)
      ]

  -- Following the cursors from the first page, for at most as many pages as there are items, gives
  -- every item once, in order, for every limit asked for; and no page is longer than 100.
  pub follow-items :
      (items : List A) (limit : Option ℕ)
      → (follow (length items) items limit 0 ≡ items)
        × ((offset : Option ℕ) → length (paginate items limit offset).items ≤ 100)
  unfolding paginate
  follow-items items limit = (
    follow-drop (length items) items limit 0 (omega arith),
    λ offset.
        let taken = length-take-le (page_limit limit) (drop (unwrap_or offset 0) items) in
        omega (arith, taken, page_limit-le limit),
  )
