-- ===== src/Query/Guard/Approval.antt =====
-- What an approval by the guard says of a query, and what it does not.
use pairdbase.Common.{
  ◌≡◌, refl, ◌↔◌, ◌⊎◌, inl, inr, true, false, List, [], ◌∷◌, Result, ok, err, arith, Bool-cases,
}
use pairdbase.Text.{Text, Unicode}
use pairdbase.Connections.Domain.{DbType}
use pairdbase.Query.Domain.{
  StatementType, select, other, ConnectionPermission, default_permission, approved,
}
use pairdbase.Query.Guard.{
  Statement, SqlParser, dialect_for, is_nosql, allowed, classify, is_unbounded, check_permission,
  check_unbounded_mutation, check_statement, check_parsed, evaluate, normalize, injection_patterns,
}
use pairdbase.Query.Guard.Injection.{IsClean, check_injection-IsClean}

allowed-default :
    (t : StatementType) → allowed t default_permission ≡ true → (t ≡ select) ⊎ (t ≡ other)
unfolding allowed default_permission
allowed-default t h = ground arith

module _ {E : Type 0} (u : Unicode) (parse_sql : SqlParser E) where
  -- The statement is permitted, is bounded and stands in a query with no injection pattern.
  pub record IsAcceptable (query : Text) (p : ConnectionPermission) (stmt : Statement E)
      : Type 0 where
    pub permitted : allowed (classify stmt) p ≡ true
    pub bounded : is_unbounded stmt ≡ false
    pub clean : IsClean (normalize u query) injection_patterns

  check_statement→IsAcceptable :
      (query : Text) (p : ConnectionPermission) (stmt : Statement E) (t : StatementType)
      → check_statement u query p stmt ≡ approved t
      → (t ≡ classify stmt) × IsAcceptable query p stmt
  unfolding check_statement check_permission check_unbounded_mutation
  check_statement→IsAcceptable query p stmt t h = (
    ground arith,
    record {
      permitted = ground arith;
      bounded = ground arith;
      clean = (check_injection-IsClean u query).0 (ground arith);
    },
  )

  IsAcceptable→check_statement :
      (query : Text) (p : ConnectionPermission) (stmt : Statement E)
      → IsAcceptable query p stmt
      → check_statement u query p stmt ≡ approved (classify stmt)
  unfolding check_statement check_permission check_unbounded_mutation
  IsAcceptable→check_statement query p stmt a =
      ground (arith, (check_injection-IsClean u query).1 a.clean)

  check_parsed-approved :
      (query : Text) (p : ConnectionPermission) (parsed : Result Text (List (Statement E)))
      (t : StatementType)
      → check_parsed u query p parsed ≡ approved t
      → (stmt : Statement E) × (rest : List (Statement E)) × (parsed ≡ ok (stmt ∷ rest))
        × (t ≡ classify stmt)
        × IsAcceptable query p stmt
  unfolding check_parsed
  check_parsed-approved query p (ok []) t h = cc
  check_parsed-approved query p (ok (stmt ∷ rest)) t h =
      let (e, a) = check_statement→IsAcceptable query p stmt t h in (stmt, rest, refl, e, a)
  check_parsed-approved query p (err e) t h = cc

  -- On an SQL database the guard approves a query, as a statement of the type t, exactly when the
  -- query parses to some statements and the first of these has the type t, is permitted, has a
  -- WHERE clause if it is an UPDATE or a DELETE, and no injection pattern occurs in the query.
  pub evaluate-approved_iff :
      (query : Text) (db : DbType) (p : ConnectionPermission) (t : StatementType)
      → is_nosql db ≡ false
      → (evaluate u parse_sql query db p ≡ approved t) ↔ (
          (stmt : Statement E) × (rest : List (Statement E)) × (parse_sql (dialect_for db) query
            ≡ ok (stmt ∷ rest))
          × (t ≡ classify stmt)
          × IsAcceptable query p stmt)
  unfolding evaluate check_parsed
  evaluate-approved_iff query db p t sql = (
    λ h. check_parsed-approved query p (parse_sql (dialect_for db) query) t (rw sql at h),
    λ w. rw (sql, w.2, w.3) (IsAcceptable→check_statement query p w.0 w.4),
  )

  -- With the default permission, which is that of a user with no row in the permission table, only
  -- a SELECT or a statement that is none of the known kinds is approved, on every database.
  pub evaluate-default_permission :
      (query : Text) (db : DbType) (t : StatementType)
      → evaluate u parse_sql query db default_permission ≡ approved t
      → (t ≡ select) ⊎ (t ≡ other)
  unfolding evaluate
  evaluate-default_permission query db t h = elim (Bool-cases (is_nosql db)) [
    | inl nosql ↦ inr (let e = rw nosql at h in cc)
    | inr sql ↦
        (let w = (evaluate-approved_iff query db default_permission t sql).0 h in
          rw w.3 (allowed-default (classify w.0) w.4.permitted))
  ]

  -- The guard reads only the first statement of a query: whatever statements follow it, of any
  -- kind, the verdict is the one that it has alone.
  pub evaluate_ignores_rest :
      (alone : SqlParser E) (query : Text) (db : DbType) (p : ConnectionPermission)
      (stmt : Statement E) (rest : List (Statement E))
      → parse_sql (dialect_for db) query ≡ ok (stmt ∷ rest)
      → alone (dialect_for db) query ≡ ok (stmt ∷ [])
      → evaluate u parse_sql query db p ≡ evaluate u alone query db p
  unfolding evaluate check_parsed
  evaluate_ignores_rest alone query db p stmt rest h k = rw (h, k)
