-- ===== src/Core/Pages/Laws.antt =====
-- core/src/server/handler.rs and core/src/dao/db.rs: what the pages show.
use qubit.Base.{
  ℕ, zero, suc, ◌+◌, ◌*◌, ◌%◌, ◌^◌, ◌<◌, ◌≤◌, min, length, take, drop, Option, some, List, [], ◌∷◌,
  ◌++◌, inl, inr, ◌≡◌, refl, sym, ap, ◌∙◌, ◌⊎◌, arith,
}
use qubit.Core.State.{Error, Result, ok, err}
use qubit.Core.Query.{unwrap_or}
use qubit.Core.Dao.Rows.{Client, count_sql, page_sql}
use qubit.Core.Dao.{get_paginated}
use qubit.Core.Dao.Laws.{DbReply-cases}
use qubit.Core.Pages.{PaginationParams, PagedResponse, body, paged}

Result-cases : {A : Type 0} (r : Result A) → ((a : A) × (r ≡ ok a)) ⊎ ((e : Error) × (r ≡ err e))
Result-cases (ok a) = inl (a, refl)
Result-cases (err e) = inr (e, refl)

module _ {A : Type 0} where
  take-nil : (n : ℕ) → take {A = A} n [] ≡ []
  take-nil zero = refl
  take-nil (suc n) = refl

  -- what stands after n elements is taken by taking m more
  take-add : (n m : ℕ) (xs : List A) → take (n + m) xs ≡ take n xs ++ take m (drop n xs)
  take-add zero m xs = ground arith
  take-add (suc n) m [] = take-nil (suc n + m) ∙ sym (take-nil m)
  take-add (suc n) m (x ∷ xs) =
      let e : suc n + m ≡ suc (n + m) = omega arith in rw e (ap (λ ys. x ∷ ys) (take-add n m xs))

  take_all : (n : ℕ) (xs : List A) → length xs ≤ n → take n xs ≡ xs
  take_all zero [] h = refl
  take_all zero (x ∷ xs) h = absurd (omega arith)
  take_all (suc n) [] h = refl
  take_all (suc n) (x ∷ xs) h = ap (λ ys. x ∷ ys) (take_all n xs (omega arith))

  -- the first k of a sequence of pages, one after the other
  unfoldable pub joined : (ℕ → List A) → ℕ → List A
  joined pages zero = []
  joined pages (suc k) = joined pages k ++ pages k

module _ {Row Key : Type 0} {key : Row → Key} (c : Client key) (db : c.Db) where
  get_paginated-ok :
      (page page_size total : ℕ) (items : List Row)
      → get_paginated c db page page_size ≡ ok (items, total)
      → page * page_size < 2 ^ 64
      → (order : List Row) × c.IsSorted db order
        × (items ≡ take page_size (drop (page * page_size) order))
        × (total ≡ length (c.rows db))
  unfolding get_paginated
  get_paginated-ok page page_size total items h fits =
      let exact : page * page_size % 2 ^ 64 ≡ page * page_size = omega arith in
      elim (DbReply-cases (c.fetch_one db (count_sql c.table))) [
        | inr (m, p) ↦ absurd (ground arith)
        | inl (n, p) ↦
            elim (DbReply-cases
              (c.fetch_all db (page_sql c.table c.column page_size (page * page_size % 2 ^ 64)))) [
                | inr (m, q) ↦ absurd (ground arith)
                | inl (rs, q) ↦
                    let (order, sorted, shown) =
                      c.page_lem db page_size (page * page_size % 2 ^ 64) rs q in
                    (order, sorted, ground arith, ground (arith, c.count_lem db n p))
              ]
      ]

  -- A page that an endpoint answers has the asked number or 0, and the asked size or the default,
  -- capped, if number times size is below 2^64; it shows the rows that stand at that offset in
  -- the sorted table, as many as the size at most, and the number of all rows.
  paged_lem :
      (default cap : ℕ) (params : PaginationParams) (r : PagedResponse Row)
      → paged c db default cap params ≡ body r
      → unwrap_or params.page 0 * min (unwrap_or params.page_size default) cap < 2 ^ 64
      → (r.page ≡ unwrap_or params.page 0)
        × (r.page_size ≡ min (unwrap_or params.page_size default) cap)
        × (r.total ≡ length (c.rows db))
        × ((order : List Row) × c.IsSorted db order
            × (r.items ≡ take r.page_size (drop (r.page * r.page_size) order)))
  unfolding paged
  paged_lem default cap params r h fits =
      let page = unwrap_or params.page 0 in
      let page_size = min (unwrap_or params.page_size default) cap in
      elim (Result-cases (get_paginated c db page page_size)) [
        | inr (e, p) ↦ absurd (ground arith)
        | inl ((items, total), p) ↦
            let (order, sorted, shown, counted) =
              get_paginated-ok page page_size total items p fits in
            (ground arith, ground arith, ground arith, (order, sorted, ground arith))
      ]

  module _ (default cap : ℕ) (size : Option ℕ) (pages : ℕ → PagedResponse Row) where
    abbrev effective : ℕ
    effective = min (unwrap_or size default) cap

    abbrev Asked : ℕ → Type 0
    Asked k =
        (i : ℕ)
        → i < k
        → paged c db default cap (record { page = some i; page_size = size }) ≡ body (pages i)

    joined-take :
        (k : ℕ)
        → Asked k
        → k * effective < 2 ^ 64
        → (order : List Row) → ((other : List Row) → c.IsSorted db other → other ≡ order)
        → joined (λ i. (pages i).items) k ≡ take (k * effective) order
    unfolding joined unwrap_or
    joined-take zero asked fits order only = let e : 0 * effective ≡ 0 = grind arith in rw e refl
    joined-take (suc k) asked fits order only =
        let low : k * effective + effective < 2 ^ 64 = grind arith in
        let (number, size_of_page, _, (sorted, allowed, items)) =
          paged_lem default cap _ (pages k) (asked k (omega arith)) (omega arith) in
        let below = joined-take k (λ i h. asked i (omega arith)) (omega arith) order only in
        let more = take-add (k * effective) effective order in
        let same = only sorted allowed in
        let whole : suc k * effective ≡ k * effective + effective = grind arith in ground (arith)

  -- If the column by which the table is sorted leaves the rows one order only, the pages 0 to k -
  -- 1 that an endpoint answers at one size on one state of the table, one after the other, are
  -- all rows in that order, where k times the size in effect is at least the number of rows and
  -- below 2^64.
  pub paged_cover :
      (default cap k : ℕ) (size : Option ℕ) (pages : ℕ → PagedResponse Row)
      → ((i : ℕ)
          → i < k
          → paged c db default cap (record { page = some i; page_size = size }) ≡ body (pages i))
      → k * min (unwrap_or size default) cap < 2 ^ 64
      → length (c.rows db) ≤ k * min (unwrap_or size default) cap
      → (order : List Row) → c.IsSorted db order
      → ((other : List Row) → c.IsSorted db other → other ≡ order)
      → joined (λ i. (pages i).items) k ≡ order
  paged_cover default cap k size pages asked fits room order sorted only =
      let page_size = min (unwrap_or size default) cap in
      joined-take default cap size pages k asked fits order only
      ∙ take_all (k * page_size) order (omega (arith, c.length-IsSorted db order sorted))
