-- ===== src/Query/Executor/Limits.antt =====
-- The limit on rows in crates/app/src/features/query/executor.rs.
use pairdbase.Common.{
  ℕ, suc, ◌+◌, ◌≤◌, ◌≡◌, refl, ◌⊎◌, inl, inr, Bool, true, false, List, [], ◌∷◌, ◌++◌, map,
  append-nil, append_assoc, Result, ok, err, arith, ltb, length, take, length-append, length-take,
  length-map, zero, OnOk, OnOk-map_err, OnOk-bind, OnOk-ok, if◌then◌else◌, ok_or,
}
use pairdbase.Common.Maps.{Map, lookup}
use pairdbase.Text.{Text, Unicode}
use pairdbase.Query.Domain.{ColumnMeta, execution_failed, timeout}
use pairdbase.Query.Executor.{
  open_cursor, RawResult, ExecutionPool, Drivers, limit_rows, read_oracle, read_mongodb, run_sqlx,
  execute_oracle_query, execute_oracle_dml, run_oracle, execute_sqlserver_query,
  execute_sqlserver_dml, run_sqlserver, run_mongodb, run_redis, dispatch, run, postgres_pool,
  mysql_pool, sqlite_pool, oracle_pool, sqlserver_pool, mongodb_pool, redis_pool, is_query,
}

module _ {Row : Type 0} (max_rows : ℕ) where
  snoc : (acc : List Row) (r : Row) (rows : List Row) → (acc ++ r ∷ []) ++ rows ≡ acc ++ (r ∷ rows)
  snoc acc r rows = append_assoc acc (r ∷ []) rows

  read_oracle-append :
      (k : ℕ) (acc rows : List Row)
      → length acc + k ≡ max_rows
      → read_oracle max_rows acc (map ok rows) ≡ ok (acc ++ take k rows, ltb k (length rows))
  unfolding read_oracle
  read_oracle-append zero acc [] h = ground (arith, append-nil acc)
  read_oracle-append zero acc (r ∷ rows) h = ground (arith, append-nil acc)
  read_oracle-append (suc k) acc [] h = ground (arith, append-nil acc)
  read_oracle-append (suc k) acc (r ∷ rows) h = ground (
    arith,
    read_oracle-append k (acc ++ r ∷ []) rows,
    length-append acc (r ∷ []),
    snoc acc r (take k rows),
  )

  read_mongodb-append :
      (k : ℕ) (acc rows : List Row)
      → length acc + k ≡ max_rows
      → read_mongodb max_rows acc (map ok rows) ≡ ok (acc ++ take k rows, ltb k (length rows))
  unfolding read_mongodb
  read_mongodb-append zero acc [] h = ground (arith, append-nil acc)
  read_mongodb-append zero acc (r ∷ rows) h = ground (arith, append-nil acc)
  read_mongodb-append (suc k) acc [] h = ground (arith, append-nil acc)
  read_mongodb-append (suc k) acc (r ∷ rows) h = ground (
    arith,
    read_mongodb-append k (acc ++ r ∷ []) rows,
    length-append acc (r ∷ []),
    snoc acc r (take k rows),
  )

  read_oracle-bounded :
      (acc : List Row) (cursor : List (Result Text Row)) (got : List Row × Bool)
      → length acc ≤ max_rows
      → read_oracle max_rows acc cursor ≡ ok got
      → length got.0 ≤ max_rows
  unfolding read_oracle
  read_oracle-bounded acc [] got h e = ground arith
  read_oracle-bounded acc (ok r ∷ cursor) got h e =
      ground (arith, length-append acc (r ∷ []), read_oracle-bounded (acc ++ r ∷ []) cursor got)
  read_oracle-bounded acc (err x ∷ cursor) got h e = ground arith

  read_mongodb-bounded :
      (acc : List Row) (cursor : List (Result Text Row)) (got : List Row × Bool)
      → length acc ≤ max_rows
      → read_mongodb max_rows acc cursor ≡ ok got
      → length got.0 ≤ max_rows
  unfolding read_mongodb
  read_mongodb-bounded acc [] got h e = ground arith
  read_mongodb-bounded acc (ok r ∷ cursor) got h e =
      ground (arith, length-append acc (r ∷ []), read_mongodb-bounded (acc ++ r ∷ []) cursor got)
  read_mongodb-bounded acc (err x ∷ cursor) got h e = cc

-- On a cursor without errors both loops give the rows that a result fetched as a whole is cut to:
-- the first `max_rows`, marked as truncated exactly if there were more.
pub cursors_agree :
    {V Row : Type 0} (columns_of : Row → List ColumnMeta) (values_of : Row → List V) (max_rows : ℕ)
    (rows : List Row)
    → let cut = limit_rows columns_of values_of max_rows rows in
      (got : List Row × Bool) × (read_oracle max_rows [] (map ok rows) ≡ ok got)
      × (read_mongodb max_rows [] (map ok rows) ≡ ok got)
      × (map values_of got.0 ≡ cut.rows)
      × (got.1 ≡ cut.truncated)
unfolding limit_rows
cursors_agree columns_of values_of max_rows rows = (
  (take max_rows rows, ltb max_rows (length rows)),
  read_oracle-append max_rows max_rows [] rows (omega arith),
  read_mongodb-append max_rows max_rows [] rows (omega arith),
  refl,
  refl,
)

module _ {H V Row Doc : Type 0} (u : Unicode) (d : Drivers H V Row Doc) where
  -- At most `max_rows` rows, or the one row that reports on a statement or a command.
  abbrev IsLimited : ℕ → RawResult V → Type 0
  IsLimited max_rows raw = (length raw.rows ≤ max_rows) ⊎ (length raw.rows ≡ 1)

  limit_rows-IsLimited :
      (max_rows : ℕ) (rows : List Row)
      → IsLimited max_rows (limit_rows d.row_columns d.row_values max_rows rows)
  unfolding limit_rows
  limit_rows-IsLimited max_rows rows =
      inl (omega (arith, length-map (take max_rows rows) d.row_values, length-take max_rows rows))

  run_sqlx-IsLimited :
      (p : H) (query : Text) (max_rows : ℕ)
      → OnOk (IsLimited max_rows) (run_sqlx u d p query max_rows)
  unfolding run_sqlx
  run_sqlx-IsLimited p query max_rows =
      OnOk-map_err (IsLimited max_rows) execution_failed (d.fetch_all p query) _
        λ rows _. limit_rows-IsLimited max_rows rows

  run_oracle-IsLimited :
      (p : H) (query : Text) (max_rows : ℕ)
      → OnOk (IsLimited max_rows) (run_oracle u d p query max_rows)
  unfolding run_oracle
  run_oracle-IsLimited p query max_rows =
      OnOk-map_err (IsLimited max_rows) execution_failed (d.oracle_get p) _ λ _ _.
        elim (is_query u query)
          as (λ b. OnOk (IsLimited max_rows) (
            if b
            then execute_oracle_query u d p query max_rows
            else execute_oracle_dml u d p query)) [
              | true ↦
                  OnOk-map_err (IsLimited max_rows) execution_failed (d.oracle_query p query) _
                    λ opened _.
                      OnOk-map_err (IsLimited max_rows) execution_failed
                        (read_oracle max_rows [] opened.1) _
                        λ got e. inl (
                          omega (
                            arith,
                            length-map got.0 d.row_values,
                            read_oracle-bounded max_rows [] opened.1 got (omega arith) e,
                          ))
              | false ↦
                  OnOk-map_err (IsLimited max_rows) execution_failed (d.oracle_execute p query) _
                    λ n _.
                      OnOk-map_err (IsLimited max_rows) execution_failed (d.oracle_commit p) _
                        λ _ _. inr refl
            ]

  run_sqlserver-IsLimited :
      (p : H) (query : Text) (max_rows : ℕ)
      → OnOk (IsLimited max_rows) (run_sqlserver u d p query max_rows)
  unfolding run_sqlserver
  run_sqlserver-IsLimited p query max_rows =
      OnOk-map_err (IsLimited max_rows) execution_failed (d.sqlserver_get p) _ λ _ _.
        elim (is_query u query)
          as (λ b. OnOk (IsLimited max_rows) (
            if b
            then execute_sqlserver_query u d p query max_rows
            else execute_sqlserver_dml u d p query)) [
              | true ↦
                  OnOk-map_err (IsLimited max_rows) execution_failed (d.sqlserver_query p query) _
                    (elim [
                      | [] ↦ λ _. inl (omega arith)
                      | rows ∷ more ↦ λ _. limit_rows-IsLimited max_rows rows
                    ])
              | false ↦
                  OnOk-map_err (IsLimited max_rows) execution_failed (d.sqlserver_execute p query) _
                    λ n _. inr refl
            ]

  run_mongodb-IsLimited :
      (p : H) (query : Text) (max_rows : ℕ)
      → OnOk (IsLimited max_rows) (run_mongodb u d p query max_rows)
  unfolding run_mongodb
  run_mongodb-IsLimited p query max_rows =
      OnOk-map_err limited _ (d.parse_document query) _ λ doc _.
        OnOk-bind limited (ok_or (d.get_str doc _) _) _ λ coll _.
          OnOk-map_err limited execution_failed (open_cursor u d p _ coll doc _) _ λ cursor _.
            OnOk-map_err limited execution_failed (read_mongodb max_rows [] cursor) _ λ got e. inl (
              omega (
                arith,
                length-map got.0 (λ x. d.document_value x ∷ []),
                read_mongodb-bounded max_rows [] cursor got (omega arith) e,
              ))
    where
      limited : RawResult V → Type 0
      limited = IsLimited max_rows

  run_redis-IsLimited :
      (p : H) (query : Text) (max_rows : ℕ) → OnOk (IsLimited max_rows) (run_redis u d p query)
  unfolding run_redis
  run_redis-IsLimited p query max_rows =
      OnOk-map_err (IsLimited max_rows) execution_failed (d.redis_connect p) _ λ _ _.
        OnOk-map_err (IsLimited max_rows) execution_failed (d.redis_command p _ _) _ λ _ _. inr refl

  dispatch-IsLimited :
      (pool : ExecutionPool H) (query : Text) (max_rows : ℕ)
      → OnOk (IsLimited max_rows) (dispatch u d pool query max_rows)
  unfolding dispatch
  dispatch-IsLimited (postgres_pool p) query max_rows = run_sqlx-IsLimited p query max_rows
  dispatch-IsLimited (mysql_pool p) query max_rows = run_sqlx-IsLimited p query max_rows
  dispatch-IsLimited (sqlite_pool p) query max_rows = run_sqlx-IsLimited p query max_rows
  dispatch-IsLimited (oracle_pool p) query max_rows = run_oracle-IsLimited p query max_rows
  dispatch-IsLimited (sqlserver_pool p) query max_rows = run_sqlserver-IsLimited p query max_rows
  dispatch-IsLimited (mongodb_pool p) query max_rows = run_mongodb-IsLimited p query max_rows
  dispatch-IsLimited (redis_pool p) query max_rows = run_redis-IsLimited p query max_rows

  -- Whatever the database answers, a result holds at most `max_rows` rows, or is the one row that
  -- reports on a statement or a command.
  pub run-IsLimited :
      (pools : Map (ExecutionPool H)) (connection_id : ℕ) (query : Text) (max_rows secs : ℕ)
      (in_time : Bool) (raw : RawResult V)
      → run u d pools connection_id query max_rows secs in_time ≡ ok raw
      → (length raw.rows ≤ max_rows) ⊎ (length raw.rows ≡ 1)
  run-IsLimited pools connection_id query max_rows secs in_time raw =
      OnOk-ok (IsLimited max_rows) (run u d pools connection_id query max_rows secs in_time) raw (
        unfold run in
        OnOk-bind (IsLimited max_rows) (ok_or (lookup connection_id pools) _) _ λ pool _.
          elim in_time
            as (λ b.
              OnOk (IsLimited max_rows)
                (if b then dispatch u d pool query max_rows else err (timeout secs))) [
                  | true ↦ dispatch-IsLimited pool query max_rows
                  | false ↦ tt
                ])
