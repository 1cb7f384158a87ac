-- ===== src/Core/Dao/Statements.antt =====
-- core/src/dao/db.rs: what the texts of the statements determine.
use mathlib.Core.List.{append-nil, append_cancel_left}
use mathlib.Core.Option.{some-injective}
use qubit.Base.{
  ℕ, Text, codes, concat, show_nat, show_nat_injective, show_nat-Lacks, cut, cut_found, [], ◌∷◌,
  ◌++◌, ◌≡◌, refl, sym, ap, ◌∙◌, arith,
}
use qubit.Core.Dao.Rows.{page_sql}

-- what follows the column
tail_of : ℕ → ℕ → Text
tail_of limit offset = show_nat limit ++ 32 ∷ (codes "OFFSET " ++ (show_nat offset ++ []))

module _ (table column : Text) where
  page_sql-split :
      (limit offset : ℕ)
      → page_sql table column limit offset
        ≡ codes "SELECT * FROM "
          ++ (table
              ++ (codes " ORDER BY " ++ (column ++ (codes " DESC LIMIT " ++ tail_of limit offset))))
  unfolding page_sql concat tail_of
  page_sql-split limit offset = refl

tail_of_injective :
    (limit offset limit' offset' : ℕ)
    → tail_of limit offset ≡ tail_of limit' offset'
    → (limit ≡ limit') × (offset ≡ offset')
unfolding tail_of
tail_of_injective limit offset limit' offset' e =
    let rest = codes "OFFSET " ++ (show_nat offset ++ []) in
    let rest' = codes "OFFSET " ++ (show_nat offset' ++ []) in
    let found = cut_found 32 (show_nat limit) rest (show_nat-Lacks 32 limit (omega arith)) in
    let found' = cut_found 32 (show_nat limit') rest' (show_nat-Lacks 32 limit' (omega arith)) in
    let both = some-injective _ _ (sym found ∙ ap (cut 32) e ∙ found') in
    let after = append_cancel_left (codes "OFFSET ") _ _ (ap (λ (p : Text × Text). p.1) both) in
    (
      show_nat_injective limit limit' (ap (λ (p : Text × Text). p.0) both),
      show_nat_injective offset offset'
          (sym (append-nil (show_nat offset)) ∙ (after ∙ append-nil (show_nat offset'))),
    )

-- On one table, sorted by one column, the text of the query for a page determines the page.
pub page_sql_injective :
    (table column : Text) (limit offset limit' offset' : ℕ)
    → page_sql table column limit offset ≡ page_sql table column limit' offset'
    → (limit ≡ limit') × (offset ≡ offset')
page_sql_injective table column limit offset limit' offset' e =
    let whole =
      sym (page_sql-split table column limit offset)
      ∙ (e ∙ page_sql-split table column limit' offset') in
    tail_of_injective limit offset limit' offset' (
      append_cancel_left (codes " DESC LIMIT ") _ _ (
        append_cancel_left column _ _ (
          append_cancel_left (codes " ORDER BY ") _ _ (
            append_cancel_left table _ _ (append_cancel_left (codes "SELECT * FROM ") _ _ whole)))))
