-- ===== src/Connections/Schemas.antt =====
-- Which schema a request is answered with (crates/app/src/features/connections).
use pairdbase.Common.{
  ℕ, ◌+◌, ◌<◌, ◌≡◌, false, none, some, ok, map_err, map_err-eq-ok, find, Option-cases, inl, inr,
  arith, ap, ◌∙◌, sym, if◌then◌else◌,
}
use pairdbase.Common.Maps.{lookup, insert, remove, lookup-remove_self, lookup-insert_self}
use pairdbase.Common.Actions.{
  ◌>>=◌, Reads, bind-ok, bind-run, bind-state, lift-Reads, match_option, bind-Reads, return-Reads,
}
use pairdbase.Text.{Text}
use pairdbase.Connections.Domain.{driver}
use pairdbase.Connections.Rows.{Connection, ConnectionRow, map_connection}
use pairdbase.Connections.Repository.{Store, Surroundings, is_stored, find_connection}
use pairdbase.Connections.UseCases.{
  known_connection, cached_text, cache_get, cache_put, cache_set, cache_ttl, build_driver,
  connect_new, get_or_connect, read_schema, get_schema, get_connection,
}
use pairdbase.Connections.Requests.{refresh_request}
use pairdbase.Connections.Creation.{known_connection-Reads}
use pairdbase.Connections.Removal.{invalidate-run}

module _ {D M : Type 0} (x : Surroundings D M) where
  cache_get-none :
      (i id : ℕ) (t : Store D) → lookup id t.cache ≡ none → cache_get x i id t ≡ (t, ok none)
  unfolding cache_get cached_text ◌>>=◌
  cache_get-none i id t h = ground arith

  known_connection-stored :
      (i id : ℕ) (t : Store D) (conn : Connection)
      → (known_connection x i id t).1 ≡ ok conn
      → (row : ConnectionRow) × (find (is_stored id) t.rows ≡ some row)
        × (map_connection x.unicode x.cipher row ≡ ok conn)
  unfolding known_connection find_connection ◌>>=◌
  known_connection-stored i id t conn h = elim (Option-cases (find (is_stored id) t.rows)) [
    | inl n ↦ absurd (ground arith)
    | inr (row, e) ↦ (row, e, ground arith)
  ]

  -- A driver that was opened for the connection as it is stored reads the schema.
  pub record IsFresh (id : ℕ) (t : Store D) (schema : M) : Type 0 where
    pub row : ConnectionRow
    pub stored : find (is_stored id) t.rows ≡ some row
    pub conn : Connection
    pub read : map_connection x.unicode x.cipher row ≡ ok conn
    pub opened : D
    pub built : build_driver x conn ≡ ok opened
    pub fetched : x.fetch_schema opened ≡ ok schema

  connect_new-run :
      (i id : ℕ) (t : Store D) (d : D)
      → (connect_new x i id t).1 ≡ ok d
      → (conn : Connection) × ((known_connection x i id t).1 ≡ ok conn)
        × (build_driver x conn ≡ ok d)
  unfolding connect_new
  connect_new-run i id t d h =
      let (conn, a, h1) = bind-ok _ _ t (known_connection-Reads x i id) h in
      let built = map_err driver (build_driver x conn) in
      let (d', b, h2) = bind-ok _ _ t (lift-Reads (Store D) built) h1 in
      let (_, _, h3, _) = bind-run _ _ t h2 in
      let same : d' ≡ d = cc in (conn, a, map_err-eq-ok driver _ b ∙ ap (λ z. ok z) same)

  get_or_connect-none :
      (i id : ℕ) (t : Store D)
      → lookup id t.drivers ≡ none
      → get_or_connect x i id t ≡ connect_new x i id t
  unfolding get_or_connect match_option ◌>>=◌
  get_or_connect-none i id t h = ground arith

  read_schema-run :
      (i id : ℕ) (t : Store D) (schema : M)
      → lookup id t.drivers ≡ none
      → (read_schema x i id t).1 ≡ ok schema
      → IsFresh id t schema
  unfolding read_schema
  read_schema-run i id t schema n h =
      let (d, a, h1, _) = bind-run _ _ t h in
      let (m, b, h2) =
        bind-ok _ _ _ (lift-Reads (Store D) (map_err driver (x.fetch_schema d))) h1 in
      let (_, _, h3, _) = bind-run _ _ _ h2 in
      let same : m ≡ schema = cc in
      let (conn, c, built) =
        connect_new-run i id t d (ap (λ z. z.1) (sym (get_or_connect-none i id t n)) ∙ a) in
      let (row, stored, read) = known_connection-stored i id t conn c in
      record {
        row = row;
        stored = stored;
        conn = conn;
        read = read;
        opened = d;
        built = built;
        fetched = map_err-eq-ok driver _ b ∙ ap (λ z. ok z) same;
      }

  get_schema-none :
      (i id : ℕ) (t : Store D)
      → lookup id t.cache ≡ none
      → get_schema x i id t ≡ read_schema x (i + 1) id t
  unfolding get_schema match_option ◌>>=◌
  get_schema-none i id t h = ground (arith, cache_get-none i id t h)

  get_connection-Reads : (i id : ℕ) → Reads (get_connection x i id)
  unfolding get_connection
  get_connection-Reads i id =
      bind-Reads _ _ (known_connection-Reads x i id) (λ c. return-Reads (Store D) _ _)

  -- A refreshed schema, where Redis did not fail to drop the cached one, is what a driver reads that
  -- was opened for the connection as it is stored.
  pub refresh_request-IsFresh :
      (id : ℕ) (t : Store D) (schema : M)
      → x.redis_fails 1 ≡ false
      → (refresh_request x id t).1 ≡ ok schema
      → IsFresh id t schema
  unfolding refresh_request
  refresh_request-IsFresh id t schema up h =
      let (_, a, h1, _) = bind-run _ _ t h in
      let (view, b, _) = bind-ok _ _ t (get_connection-Reads 0 id) a in
      let cleared =
        bind-state _ _ t (get_connection-Reads 0 id) b
        ∙ invalidate-run x 1 id t
        ∙ ap
            (λ z. record t {
              drivers = remove id t.drivers;
              cache = if z then t.cache else remove id t.cache;
            })
            up in
      let now : Store D = record t { drivers = remove id t.drivers; cache = remove id t.cache } in
      let h2 = ap (λ z. (get_schema x 2 id z).1) (sym cleared) ∙ h1 in
      let h3 =
        ap (λ z. z.1) (sym (get_schema-none 2 id now (lookup-remove_self id t.cache))) ∙ h2 in
      let fresh = read_schema-run 3 id now schema (lookup-remove_self id t.drivers) h3 in
      record {
        row = fresh.row;
        stored = fresh.stored;
        conn = fresh.conn;
        read = fresh.read;
        opened = fresh.opened;
        built = fresh.built;
        fetched = fresh.fetched;
      }

  cache_set-run :
      (i id : ℕ) (schema : M) (json : Text) (t : Store D)
      → x.redis_fails i ≡ false
      → x.to_json schema ≡ some json
      → (cache_set x i id schema t).0
        ≡ record t { cache = insert id (json, x.clock i + cache_ttl) t.cache }
  unfolding cache_set cache_put match_option ◌>>=◌
  cache_set-run i id schema json t up h = ground arith

  read_schema-caches :
      (i id : ℕ) (t : Store D) (schema : M) (json : Text)
      → (read_schema x i id t).1 ≡ ok schema
      → x.redis_fails (i + 1) ≡ false
      → x.to_json schema ≡ some json
      → lookup id (read_schema x i id t).0.cache ≡ some (json, x.clock (i + 1) + cache_ttl)
  unfolding read_schema
  read_schema-caches i id t schema json h up j =
      let (d, a, h1, s1) = bind-run _ _ t h in
      let reading = lift-Reads (Store D) (map_err driver (x.fetch_schema d)) in
      let (m, b, h2) = bind-ok _ _ _ reading h1 in
      let (_, _, h3, s3) = bind-run _ _ _ h2 in
      let same : m ≡ schema = cc in
      ap (λ z. lookup id z.cache)
        (s1
          ∙ bind-state _ _ _ reading b
          ∙ s3
          ∙ cache_set-run (i + 1) id m json _ up (ap x.to_json same ∙ j))
      ∙ lookup-insert_self id (json, x.clock (i + 1) + cache_ttl) _

  get_schema-hit :
      (i id expires : ℕ) (json : Text) (t : Store D) (schema : M)
      → lookup id t.cache ≡ some (json, expires)
      → x.clock i < expires
      → x.redis_fails i ≡ false
      → x.from_json json ≡ some schema
      → (get_schema x i id t).1 ≡ ok schema
  unfolding get_schema cache_get cached_text match_option ◌>>=◌
  get_schema-hit i id expires json t schema h l up p = ground arith

-- Where no schema is cached for a connection, one that is read without an error, and that Redis
-- takes, is the answer to a request for it in the five minutes after it was put into the cache, with
-- any faults and whatever the databases have become and the store otherwise holds by then, if the
-- entry of the connection is still the one that was put there, Redis answers, and the JSON is read
-- as the schema.
pub get_schema-get_schema :
    {D M : Type 0} (x y : Surroundings D M) (j id : ℕ) (t later : Store D) (schema : M)
    (json : Text)
    → lookup id t.cache ≡ none
    → (get_schema x 0 id t).1 ≡ ok schema
    → x.redis_fails 2 ≡ false
    → x.to_json schema ≡ some json
    → lookup id later.cache ≡ lookup id (get_schema x 0 id t).0.cache
    → y.from_json json ≡ some schema
    → y.redis_fails j ≡ false
    → y.clock j < x.clock 2 + cache_ttl
    → (get_schema y j id later).1 ≡ ok schema
get_schema-get_schema x y j id t later schema json miss h up to kept from up' soon =
    let same = get_schema-none x 0 id t miss in
    let held =
      kept
      ∙ ap (λ z. lookup id z.0.cache) same
      ∙ read_schema-caches x 1 id t schema json (ap (λ z. z.1) (sym same) ∙ h) up to in
    get_schema-hit y j id (x.clock 2 + cache_ttl) json later schema held soon up' from
