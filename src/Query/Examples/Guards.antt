-- ===== src/Query/Examples/Guards.antt =====
-- The theorems about the query guard at concrete queries.
use pairdbase.Common.{ℕ, ◌≡◌, refl, List, ◌∷◌, ok}
use pairdbase.Text.{ascii, ascii_lower, contains, join, split_whitespace}
use pairdbase.Connections.Domain.{postgresql}
use pairdbase.Query.Domain.{default_permission, approved, select}
use pairdbase.Query.Guard.{Statement, dialect_for, classify, evaluate, is_nosql, normalize, scan}
use pairdbase.Query.Guard.Approval.{IsAcceptable, evaluate-approved_iff}
use pairdbase.Query.Examples.{a_select, select_one}

select_approved : evaluate ascii a_select select_one postgresql default_permission ≡ approved select
unfolding evaluate ascii ascii_lower classify default_permission scan contains normalize join
    split_whitespace
select_approved = refl

evaluate-approved_iff_example :
    (stmt : Statement ℕ) × (rest : List (Statement ℕ)) × (a_select
        (dialect_for postgresql)
        select_one
      ≡ ok (stmt ∷ rest))
    × (select ≡ classify stmt)
    × IsAcceptable ascii a_select select_one default_permission stmt
unfolding is_nosql
evaluate-approved_iff_example =
    (evaluate-approved_iff ascii a_select select_one postgresql default_permission select refl).0
      select_approved
