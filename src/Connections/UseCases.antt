-- ===== src/Connections/UseCases.antt =====
-- The use cases of connections: crates/app/src/features/connections/use_cases.rs, with the cache of
-- schemas and the registry of drivers of pool.rs. A call has a number, in the order of the code.
use pairdbase.Common.{
  ℕ, ◌+◌, ◌*◌, ◌^◌, Bool, true, false, not, Option, none, some, List, Result, ok, err, map_err,
  ok_or, map, ◌==◌, ltb, any_of, if◌then◌else◌,
}
use pairdbase.Common.Maps.{Map, lookup, insert, remove}
use pairdbase.Common.Actions.{
  ◌>>=◌, ◌>>◌, return, lift, get_state, put_state, require, match_option,
}
use pairdbase.Text.{Text, codes, text_eq}
use pairdbase.Connections.Domain.{not_found, name_taken, forbidden, driver, DbType, sqlite}
use pairdbase.Connections.Rows.{Connection, ConnectionView, view_of}
use pairdbase.Connections.Repository.{
  Surroundings, Step, find_connection, list_for_workspace, insert_connection, save_connection,
  remove_connection,
}

pub record TestResult : Type 0 where
  pub success : Bool
  pub message : Text
  pub latency_ms : Option ℕ
  pub server_version : Option Text

-- Five minutes, in nanoseconds.
abbrev pub cache_ttl : ℕ
cache_ttl = 300 * 10 ^ 9

-- What Redis answers to GET.
unfoldable pub cached_text : Map (Text × ℕ) → ℕ → ℕ → Option Text
unfolding lookup
cached_text cache now id = elim (lookup id cache) [
  | none ↦ none
  | some (json, expires_at) ↦ if ltb now expires_at then some json else none
]

-- The name is one of the connections'.
unfoldable pub is_taken : Text → List Connection → Bool
unfolding text_eq
is_taken name existing = any_of (λ c. text_eq c.name name) existing

-- `Option::and_then` of reading JSON.
abbrev parsed {ℓ} : {M : Type ℓ} → (Text → Option M) → Option Text → Option M
parsed f none = none
parsed f (some json) = f json

abbrev failed_test : Text → TestResult
failed_test e = record { success = false; message = e; latency_ms = none; server_version = none }

module _ {D M : Type 0} where
  unfoldable pub cache_get : Surroundings D M → ℕ → ℕ → Step D (Option M)
  unfolding cached_text
  cache_get x i id = do
    t ← get_state
    return
        (if x.redis_fails i then none else parsed x.from_json (cached_text t.cache (x.clock i) id))

  -- `SETEX`, whose failure is only logged.
  unfoldable pub cache_put : Surroundings D M → ℕ → ℕ → Text → Step D (Unit {0})
  unfolding insert
  cache_put x i id json = do
    t ← get_state
    put_state (
        if x.redis_fails i
        then t
        else record t { cache = insert id (json, x.clock i + cache_ttl) t.cache })

  unfoldable pub cache_set : Surroundings D M → ℕ → ℕ → M → Step D (Unit {0})
  unfolding cache_put match_option
  cache_set x i id schema = match_option (x.to_json schema) (return tt) (cache_put x i id)

  -- `invalidate`.
  unfoldable pub cache_del : Surroundings D M → ℕ → ℕ → Step D (Unit {0})
  unfolding remove
  cache_del x i id = do
    t ← get_state
    put_state (if x.redis_fails i then t else record t { cache = remove id t.cache })

  unfoldable pub drop_driver : Surroundings D M → ℕ → Step D (Unit {0})
  unfolding remove
  drop_driver x id = do t ← get_state; put_state (record t { drivers = remove id t.drivers })

  unfoldable pub known_connection : Surroundings D M → ℕ → ℕ → Step D Connection
  known_connection x i id = do found ← find_connection x i id; lift (ok_or found not_found)

  unfoldable pub get_full : Surroundings D M → ℕ → ℕ → Step D Connection
  unfolding known_connection
  get_full x id org_id = do
    conn ← known_connection x 0 id
    require (conn.organization_id == org_id) forbidden
    return conn

  unfoldable pub invalidate_schema_cache : Surroundings D M → ℕ → ℕ → Step D (Unit {0})
  unfolding cache_del drop_driver
  invalidate_schema_cache x i id = cache_del x i id >> drop_driver x id

  unfoldable pub get_db_type : Surroundings D M → ℕ → Step D DbType
  unfolding known_connection
  get_db_type x id = do conn ← known_connection x 0 id; return conn.db_type

  unfoldable pub list_connections : Surroundings D M → ℕ → Step D (List ConnectionView)
  list_connections x workspace_id = do
    conns ← list_for_workspace x 0 workspace_id
    return (map view_of conns)

  unfoldable pub create_connection : Surroundings D M → Connection → Step D ConnectionView
  unfolding is_taken
  create_connection x conn = do
    existing ← list_for_workspace x 0 conn.workspace_id
    require (not (is_taken conn.name existing)) name_taken
    saved ← insert_connection x 1 conn
    return (view_of saved)

  unfoldable pub get_connection : Surroundings D M → ℕ → ℕ → Step D ConnectionView
  unfolding known_connection
  get_connection x i id = do conn ← known_connection x i id; return (view_of conn)

  unfoldable pub delete_connection : Surroundings D M → ℕ → ℕ → Step D (Unit {0})
  unfolding known_connection invalidate_schema_cache
  delete_connection x id requester = do
    conn ← known_connection x 0 id
    require (conn.created_by == requester) forbidden
    invalidate_schema_cache x 1 id
    remove_connection x 2 id

  unfoldable pub update_connection : Surroundings D M → ℕ → Connection → Step D Connection
  update_connection x i conn = save_connection x i conn

  unfoldable pub build_driver : Surroundings D M → Connection → Result Text D
  build_driver x conn = elim conn.db_type [
    | sqlite ↦ err (codes "SQLite not yet supported")
    | kind ↦ x.connect kind conn
  ]

  unfoldable pub register_driver : Surroundings D M → ℕ → D → Step D (Unit {0})
  unfolding insert
  register_driver x id d = do
    t ← get_state
    put_state (record t { drivers = insert id d t.drivers })

  -- `get_or_connect` where the registry has no driver.
  unfoldable pub connect_new : Surroundings D M → ℕ → ℕ → Step D D
  unfolding known_connection build_driver register_driver
  connect_new x i id = do
    conn ← known_connection x i id
    d ← lift (map_err driver (build_driver x conn))
    register_driver x id d
    return d

  unfoldable pub get_or_connect : Surroundings D M → ℕ → ℕ → Step D D
  unfolding connect_new lookup match_option
  get_or_connect x i id = do
    t ← get_state
    match_option (lookup id t.drivers) (connect_new x i id) return

  -- `get_schema` where the cache has none.
  unfoldable pub read_schema : Surroundings D M → ℕ → ℕ → Step D M
  unfolding get_or_connect cache_set
  read_schema x i id = do
    d ← get_or_connect x i id
    schema ← lift (map_err driver (x.fetch_schema d))
    cache_set x (i + 1) id schema
    return schema

  unfoldable pub get_schema : Surroundings D M → ℕ → ℕ → Step D M
  unfolding cache_get read_schema match_option
  get_schema x i id = do
    cached ← cache_get x i id
    match_option cached (read_schema x (i + 1) id) return

  unfoldable pub test_connection : Surroundings D M → Connection → TestResult
  unfolding build_driver
  test_connection x conn = elim (build_driver x conn) [
    | err e ↦ failed_test e
    | ok d ↦ elim (x.ping d) [
      | err e ↦ failed_test e
      | ok (version, latency_ms) ↦ (record {
        success = true;
        message = codes "Connected successfully";
        latency_ms = some latency_ms;
        server_version = some version;
      })
    ]
  ]
