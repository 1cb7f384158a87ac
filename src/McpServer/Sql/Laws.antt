-- ===== src/McpServer/Sql/Laws.antt =====
-- mcp-server/src/ch_client.rs: the quotes of a query.
use qubit.Base.{
  length, ℕ, ◌+◌, ◌*◌, ◌%◌, ◌^◌, ap, ◌∙◌, Text, nat_eq, ◌==◌, if◌then◌else◌, codes, concat, join,
  replace, show_nat, show_nat-Lacks, Lacks, Option, none, some, List, [], ◌∷◌, ◌++◌, ◌≡◌, refl,
  arith,
}
use qubit.McpServer.Sql.{sanitize, condition, select, k8s_query, network_query}

-- The number of single quotes in a text.
abbrev pub quotes : Text → ℕ
quotes [] = 0
quotes (c ∷ s) = (if c == 39 then 1 else 0) + quotes s

-- Whether a filter is given.
abbrev pub given : Option Text → ℕ
given none = 0
given (some value) = 1

quotes-append : (s t : Text) → quotes (s ++ t) ≡ quotes s + quotes t
quotes-append [] t = omega arith
quotes-append (c ∷ s) t = omega (arith, quotes-append s t)

quotes-Lacks : (s : Text) → Lacks 39 s → quotes s ≡ 0
quotes-Lacks [] h = refl
quotes-Lacks (c ∷ s) h = ground (arith, quotes-Lacks s h.1)

quotes-sanitize : (s : Text) → quotes (sanitize s) ≡ 0
unfolding sanitize replace
quotes-sanitize [] = refl
quotes-sanitize (c ∷ s) = ground (arith, quotes-sanitize s)

length-sanitize : (s : Text) → length (sanitize s) + quotes s ≡ length s
unfolding sanitize replace
length-sanitize [] = refl
length-sanitize (c ∷ s) = ground (arith, length-sanitize s)

abbrev all_quotes : List Text → ℕ
all_quotes [] = 0
all_quotes (s ∷ ss) = quotes s + all_quotes ss

quotes-concat : (ss : List Text) → quotes (concat ss) ≡ all_quotes ss
unfolding concat
quotes-concat [] = refl
quotes-concat (s ∷ ss) = omega (arith, quotes-append s (concat ss), quotes-concat ss)

quotes-join : (sep : Text) (ss : List Text) → quotes sep ≡ 0 → quotes (join sep ss) ≡ all_quotes ss
unfolding join
quotes-join sep [] h = refl
quotes-join sep (s ∷ []) h = omega arith
quotes-join sep (s ∷ t ∷ ss) h = omega (
  arith,
  quotes-append s (sep ++ join sep (t ∷ ss)),
  quotes-append sep (join sep (t ∷ ss)),
  quotes-join sep (t ∷ ss) h,
)

all_quotes-append : (ss ts : List Text) → all_quotes (ss ++ ts) ≡ all_quotes ss + all_quotes ts
all_quotes-append [] ts = omega arith
all_quotes-append (s ∷ ss) ts = omega (arith, all_quotes-append ss ts)

frame :
    (quotes (codes " = '") ≡ 1)
    × (quotes (codes "'") ≡ 1)
    × (quotes (codes " AND ") ≡ 0)
    × (quotes (codes "SELECT ") ≡ 0)
    × (quotes (codes " FROM ") ≡ 0)
    × (quotes (codes " WHERE ") ≡ 0)
    × (quotes (codes " ORDER BY ") ≡ 0)
    × (quotes (codes " DESC LIMIT 100") ≡ 0)
unfolding native.Mathlib.Decide.ℕ_discrete
frame = (refl, refl, refl, refl, refl, refl, refl, refl)

literal-quotes :
    (a b c d : Text)
    → quotes a ≡ 0
    → quotes b ≡ 1
    → quotes c ≡ 0
    → quotes d ≡ 1
    → quotes (concat (a ∷ b ∷ c ∷ d ∷ [])) ≡ 2
literal-quotes a b c d p q r t = omega (arith, quotes-concat (a ∷ b ∷ c ∷ d ∷ []))

all_quotes-condition :
    (column : Text) (filter : Option Text)
    → quotes column ≡ 0
    → all_quotes (condition column filter) ≡ 2 * given filter
unfolding condition
all_quotes-condition column none h = refl
all_quotes-condition column (some value) h = omega (
  arith,
  literal-quotes column (codes " = '") (sanitize value) (codes "'") h frame.0
      (quotes-sanitize value) frame.1,
)

query-quotes :
    (a b c d e f g h i : Text)
    → quotes a ≡ 0
    → quotes b ≡ 0
    → quotes c ≡ 0
    → quotes e ≡ 0
    → quotes g ≡ 0
    → quotes h ≡ 0
    → quotes i ≡ 0
    → quotes (concat (a ∷ b ∷ c ∷ d ∷ e ∷ f ∷ g ∷ h ∷ i ∷ [])) ≡ quotes d + quotes f
query-quotes a b c d e f g h i pa pb pc pe pg ph pi =
    omega (arith, quotes-concat (a ∷ b ∷ c ∷ d ∷ e ∷ f ∷ g ∷ h ∷ i ∷ []))

quotes-select :
    (columns table : Text) (conditions : List Text) (order : Text)
    → quotes columns ≡ 0
    → quotes order ≡ 0
    → quotes (select columns table conditions order) ≡ quotes table + all_quotes conditions
unfolding select
quotes-select columns table conditions order plain plain' =
    let (_, _, conjunction, s, f, w, o, l) = frame in
    query-quotes (codes "SELECT ") columns (codes " FROM ") table (codes " WHERE ")
      (join (codes " AND ") conditions) (codes " ORDER BY ") order (codes " DESC LIMIT 100") s plain
      f w o plain' l
    ∙ ap (λ n. quotes table + n) (quotes-join (codes " AND ") conditions conjunction)

-- The conditions on the time and on two columns.
conditions-quotes :
    (time first second : Text) (filter filter' : Option Text)
    → quotes time ≡ 0
    → quotes first ≡ 0
    → quotes second ≡ 0
    → all_quotes (time ∷ (condition first filter ++ condition second filter'))
      ≡ 2 * (given filter + given filter')
conditions-quotes time first second filter filter' h h' h'' = omega (
  arith,
  all_quotes-append (condition first filter) (condition second filter'),
  all_quotes-condition first filter h',
  all_quotes-condition second filter' h'',
)

time-quotes :
    (a b c : Text)
    → quotes a ≡ 0
    → quotes b ≡ 0
    → quotes c ≡ 0
    → quotes (concat (a ∷ b ∷ c ∷ [])) ≡ 0
time-quotes a b c p q r = omega (arith, quotes-concat (a ∷ b ∷ c ∷ []))

-- Whatever the filters' texts are, the two queries for stored events have, besides the single
-- quotes in the table's name, exactly two for each filter that is given, so a filter's text adds
-- none. The sanitized text of a filter has no quote, and is shorter than the text by exactly its
-- quotes.
pub quotes-queries :
    (table value : Text) (filter filter' : Option Text) (last_minutes : ℕ)
    → (quotes (k8s_query table filter filter' last_minutes)
        ≡ quotes table + 2 * (given filter + given filter'))
      × (quotes (network_query table filter filter' last_minutes)
          ≡ quotes table + 2 * (given filter + given filter'))
      × (quotes (sanitize value) ≡ 0)
      × (length (sanitize value) + quotes value ≡ length value)
unfolding k8s_query network_query native.Mathlib.Decide.ℕ_discrete
quotes-queries table value filter filter' last_minutes =
    let digits = λ (n : ℕ). quotes-Lacks (show_nat n) (show_nat-Lacks 39 n (omega arith)) in
    (
      quotes-select _ table _ _ refl refl
          ∙ ap (λ n. quotes table + n)
              (conditions-quotes _ _ _ filter filter'
                (time-quotes _ _ _ refl (digits last_minutes) refl) refl refl),
      quotes-select _ table _ _ refl refl
          ∙ ap (λ n. quotes table + n)
              (conditions-quotes _ _ _ filter filter'
                (time-quotes _ _ _ refl (digits (last_minutes * 60 % 2 ^ 32)) refl) refl refl),
      quotes-sanitize value,
      length-sanitize value,
    )
