-- ===== src/Connections/Removal.antt =====
-- What a deletion of a connection does (crates/app/src/features/connections/use_cases.rs).
use pairdbase.Common.{
  ℕ, ◌≡◌, refl, false, not, ◌&&◌, none, List, [], ◌∷◌, ok, arith, find, is_some, update_rows, ◌==◌,
  ==→≡, ap, ◌∙◌, if◌then◌else◌,
}
use pairdbase.Common.Maps.{lookup, lookup-remove_self, remove}
use pairdbase.Common.Actions.{◌>>=◌, bind-ok, bind-run, bind-state, require-ok, require-Reads}
use pairdbase.Connections.Domain.{forbidden}
use pairdbase.Connections.Rows.{Connection, ConnectionRow}
use pairdbase.Connections.Repository.{
  Store, Surroundings, is_stored, removed, change_row, remove_connection,
}
use pairdbase.Connections.UseCases.{
  known_connection, invalidate_schema_cache, cache_del, drop_driver, delete_connection,
}
use pairdbase.Connections.Creation.{known_connection-Reads}

removed-absent :
    (id now : ℕ) (rows : List ConnectionRow)
    → find
        (is_stored id)
        (update_rows (λ r. r.id == id && not (is_some r.deleted_at)) (removed now) rows)
      ≡ none
unfolding is_stored removed
removed-absent id now [] = refl
removed-absent id now (r ∷ rs) = ground (arith, removed-absent id now rs)

removed-others :
    (id other now : ℕ) (rows : List ConnectionRow)
    → (id == other) ≡ false
    → find
        (is_stored other)
        (update_rows (λ r. r.id == id && not (is_some r.deleted_at)) (removed now) rows)
      ≡ find (is_stored other) rows
unfolding is_stored removed
removed-others id other now [] n = refl
removed-others id other now (r ∷ rs) n = ground (arith, removed-others id other now rs n)

module _ {D M : Type 0} (x : Surroundings D M) where
  pub invalidate-run :
      (i id : ℕ) (t : Store D)
      → (invalidate_schema_cache x i id t).0 ≡ record t {
        drivers = remove id t.drivers;
        cache = if x.redis_fails i then t.cache else remove id t.cache;
      }
  unfolding invalidate_schema_cache cache_del drop_driver ◌>>=◌
  invalidate-run i id t = ground arith

  remove_connection-run :
      (i id : ℕ) (t : Store D)
      → (remove_connection x i id t).1 ≡ ok tt
      → (remove_connection x i id t).0 ≡ record t {
        rows =
            update_rows
              (λ r. r.id == id && not (is_some r.deleted_at))
              (removed (x.clock i))
              t.rows;
      }
  unfolding remove_connection change_row ◌>>=◌
  remove_connection-run i id t h = ground arith

  -- The user had created the connection; no request finds it any longer, no driver is open for it,
  -- and where Redis did not fail no schema is cached for it; every other connection is found as it
  -- was.
  pub record IsDeleted (id requester : ℕ) (before after : Store D) : Type 0 where
    pub conn : Connection
    pub read : (known_connection x 0 id before).1 ≡ ok conn
    pub created : conn.created_by ≡ requester
    pub gone : find (is_stored id) after.rows ≡ none
    pub undriven : lookup id after.drivers ≡ none
    pub uncached : x.redis_fails 1 ≡ false → lookup id after.cache ≡ none
    pub others :
        (other : ℕ)
        → (id == other) ≡ false
        → find (is_stored other) after.rows ≡ find (is_stored other) before.rows

  -- A deletion without an error: the user had created the connection; no request finds it any
  -- longer, no driver is open for it, and where Redis did not fail no schema is cached for it; every
  -- other connection is found as it was.
  pub delete_connection-IsDeleted :
      (id requester : ℕ) (t : Store D)
      → (delete_connection x id requester t).1 ≡ ok tt
      → IsDeleted id requester t (delete_connection x id requester t).0
  unfolding delete_connection
  delete_connection-IsDeleted id requester t h =
      let known = known_connection-Reads x 0 id in
      let (conn, a, h1) = bind-ok _ _ t known h in
      let mine = require-Reads (Store D) (conn.created_by == requester) forbidden in
      let (_, b, h2) = bind-ok _ _ t mine h1 in
      let (_, _, d, e) = bind-run _ _ t h2 in
      let cleared = invalidate-run 1 id t in
      let run =
        bind-state _ _ t known a
        ∙ bind-state _ _ t mine b
        ∙ e
        ∙ remove_connection-run 2 id (invalidate_schema_cache x 1 id t).0 d in
      record {
        conn = conn;
        read = a;
        created = ==→≡ conn.created_by requester (require-ok _ forbidden t b);
        gone = ap (λ z. find (is_stored id) z.rows) run ∙ removed-absent id (x.clock 2) _;
        undriven =
            ap (λ z. lookup id z.drivers) run
            ∙ ap (λ z. lookup id z.drivers) cleared
            ∙ lookup-remove_self id t.drivers;
        uncached = λ k.
            ap (λ z. lookup id z.cache) run
            ∙ ap (λ z. lookup id z.cache) cleared
            ∙ ground (arith, lookup-remove_self id t.cache);
        others = λ other n.
            ap (λ z. find (is_stored other) z.rows) run
            ∙ removed-others id other (x.clock 2) _ n
            ∙ ap (λ z. find (is_stored other) z.rows) cleared;
      }
