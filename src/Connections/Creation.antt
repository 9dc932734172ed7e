-- ===== src/Connections/Creation.antt =====
-- What a creation leaves for later requests (crates/app/src/features/connections/use_cases.rs).
use pairdbase.Common.{
  ℕ, ◌≡◌, ◌≢◌, false, not, none, some, List, ok, arith, length, find, ap, ◌∙◌, sym, subst, ==-refl,
}
use pairdbase.Common.Actions.{
  ◌>>=◌, Reads, bind-ok, bind-run, bind-state, require-ok, require-Reads, lift-Reads, at_state-ok,
  bind-Reads, get_state-Reads, return-Reads, may_fail-Reads,
}
use pairdbase.Connections.Domain.{redis, sqlite, name_taken}
use pairdbase.Connections.Encryption.{IsSound}
use pairdbase.Connections.Rows.{Connection, ConnectionRow, ConnectionView, map_connection, row_of}
use pairdbase.Connections.Repository.{
  Store, Surroundings, is_stored, find_connection, list_for_workspace,
}
use pairdbase.Connections.UseCases.{is_taken, create_connection, known_connection, get_full}
use pairdbase.Connections.Storage.{
  IsTyped, stored_as, map_connection-row_of, find_new, IsInserted, insert_connection-run,
}

pub ruleset reading =
    (bind-Reads, get_state-Reads, lift-Reads, return-Reads, may_fail-Reads, require-Reads)

module _ {D M : Type 0} (x : Surroundings D M) where
  pub find_connection-Reads : (i id : ℕ) → Reads (find_connection x i id)
  unfolding find_connection
  find_connection-Reads i id = search reading

  pub list_for_workspace-Reads : (i w : ℕ) → Reads (list_for_workspace x i w)
  unfolding list_for_workspace
  list_for_workspace-Reads i w = search reading

  pub known_connection-Reads : (i id : ℕ) → Reads (known_connection x i id)
  unfolding known_connection
  known_connection-Reads i id =
      bind-Reads _ _ (find_connection-Reads i id) (λ found. lift-Reads (Store D) _)

  -- A creation without an error has inserted the connection, whose name was not taken.
  pub create_connection-run :
      (c : Connection) (t : Store D) (view : ConnectionView)
      → (create_connection x c t).1 ≡ ok view
      → (existing : List Connection) × ((list_for_workspace x 0 c.workspace_id t).1 ≡ ok existing)
        × (is_taken c.name existing ≡ false)
        × IsInserted x 1 c t (create_connection x c t).0
  unfolding create_connection
  create_connection-run c t view h =
      let list = list_for_workspace-Reads 0 c.workspace_id in
      let (existing, a, h1) = bind-ok _ _ t list h in
      let free = require-Reads (Store D) (not (is_taken c.name existing)) name_taken in
      let (_, b, h2) = bind-ok _ _ t free h1 in
      let (saved, d, _, f) = bind-run _ _ t h2 in
      let (_, inserted) = insert_connection-run x 1 c t saved d in
      let not_taken = require-ok (not (is_taken c.name existing)) name_taken t b in
      (
        existing,
        a,
        ground arith,
        subst (IsInserted x 1 c t) (sym (bind-state _ _ t list a ∙ bind-state _ _ t free b ∙ f))
            inserted,
      )

  pub known_connection-found :
      (i id : ℕ) (t : Store D) (row : ConnectionRow) (c : Connection)
      → x.fault i ≡ none
      → find (is_stored id) t.rows ≡ some row
      → map_connection x.unicode x.cipher row ≡ ok c
      → (known_connection x i id t).1 ≡ ok c
  unfolding known_connection find_connection ◌>>=◌
  known_connection-found i id t row c n f m = ground arith

  pub get_full-found :
      (id : ℕ) (t : Store D) (c : Connection)
      → (known_connection x 0 id t).1 ≡ ok c
      → (get_full x id c.organization_id t).1 ≡ ok c
  unfolding get_full ◌>>=◌
  get_full-found id t c h = ground (arith, ==-refl c.organization_id)

module _ {D M : Type 0} (x : Surroundings D M) (sound : IsSound x.cipher)
    (long : (i : ℕ) → length (x.nonces i) ≡ 12) (c : Connection) (typed : IsTyped c) where
  -- Under a sound cipher and nonces of twelve bytes: a connection whose numbers are in the ranges
  -- of their types, that was created without an error and is of a kind other than Redis and SQLite,
  -- is read by a later request, if the database does not fail, as it was given, its secrets
  -- included, but for the time of its creation, which is that of the database, and the columns that
  -- tell of changes, which are empty.
  pub get_full-create_connection :
      (y : Surroundings D M) (t : Store D) (view : ConnectionView)
      → c.db_type ≢ redis
      → c.db_type ≢ sqlite
      → (create_connection x c t).1 ≡ ok view
      → y.cipher ≡ x.cipher
      → y.fault 0 ≡ none
      → (get_full y c.id c.organization_id (create_connection x c t).0).1
        ≡ ok (stored_as c (x.clock 1))
  get_full-create_connection y t view not_redis not_sqlite h same n =
      let (_, _, _, inserted) = create_connection-run x c t view h in
      let row = row_of c inserted.secrets (x.clock 1) in
      let found =
        ap (λ z. find (is_stored c.id) z.rows) inserted.added
        ∙ find_new c inserted.secrets (x.clock 1) t.rows inserted.fresh in
      let read =
        ap (λ z. map_connection y.unicode z row) same
        ∙ map_connection-row_of y.unicode x.cipher sound x.nonces long c typed inserted.secrets
            (x.clock 1) not_redis not_sqlite inserted.sealed in
      let known = known_connection-found y 0 c.id _ row (stored_as c (x.clock 1)) n found read in
      get_full-found y c.id (create_connection x c t).0 (stored_as c (x.clock 1)) known
