-- ===== src/Connections/Secrets.antt =====
-- What is stored of secrets (crates/app/src/features/connections).
use pairdbase.Common.{
  ℕ, Result, ◌≡◌, refl, Bool, Option, [], ◌∷◌, ok, arith, length, Every, append-Every,
  update_rows-Every, sym, subst,
}
use pairdbase.Common.Actions.{
  put_state, return, require, lift, Reads, lift-Reads, return-Reads, may_fail-Reads, require-Reads,
}
use pairdbase.Common.Invariants.{
  Keeps, Keeps-state, Reads-Keeps, bind-Keeps, lift-Keeps, match_option-Keeps, get_state-Keeps,
  put_state-Keeps,
}
use pairdbase.Text.{Text}
use pairdbase.Connections.Vault.{Cipher}
use pairdbase.Connections.Encryption.{IsSound}
use pairdbase.Connections.Rows.{
  Connection, ConnectionRow, Secrets, encrypt_secrets, decrypt_secrets, row_of,
}
use pairdbase.Connections.Repository.{
  Store, Surroundings, Step, list_for_workspace, change_row, renamed, removed, save_connection,
  remove_connection, insert_row, insert_connection,
}
use pairdbase.Connections.Domain.{ConnectionError}
use pairdbase.Connections.UseCases.{
  create_connection, get_full, invalidate_schema_cache, delete_connection, connect_new,
  get_or_connect, cache_set, get_schema, read_schema, get_connection, update_connection,
  list_connections, known_connection, cache_get, cache_put, cache_del, drop_driver, register_driver,
}
use pairdbase.Connections.Requests.{
  Request, creates, updates, deletes, lists, gets, reads_schema, refreshes, after, create_request,
  update_request, delete_request, schema_request, refresh_request,
}
use pairdbase.Connections.Creation.{known_connection-Reads, list_for_workspace-Reads}
use pairdbase.Connections.Storage.{secrets_of, decrypt_secrets-encrypt_secrets}

-- The secrets of the row can be decrypted.
abbrev pub IsReadable : Cipher → ConnectionRow → Type 0
IsReadable c row = (s : Secrets (Option Text)) × (decrypt_secrets c row ≡ ok s)

renamed-IsReadable :
    (e : Cipher) (c : Connection) (now : ℕ) (r : ConnectionRow)
    → IsReadable e r
    → IsReadable e (renamed c now r)
unfolding renamed decrypt_secrets
renamed-IsReadable e c now r h = h

removed-IsReadable :
    (e : Cipher) (now : ℕ) (r : ConnectionRow) → IsReadable e r → IsReadable e (removed now r)
unfolding removed decrypt_secrets
removed-IsReadable e now r h = h

module _ {D M : Type 0} (x : Surroundings D M) (sound : IsSound x.cipher)
    (long : (i : ℕ) → length (x.nonces i) ≡ 12) where
  -- All secrets that are stored can be decrypted.
  abbrev pub AllReadable : Store D → Type 0
  AllReadable t = Every (IsReadable x.cipher) t.rows

  reading-Keeps : {A : Type 0} (act : Step D A) → Reads act → Keeps AllReadable act
  reading-Keeps act h = Reads-Keeps AllReadable act h

  same_rows-Keeps :
      (t new : Store D)
      → new.rows ≡ t.rows
      → AllReadable t
      → Keeps AllReadable (put_state {E = ConnectionError} new)
  same_rows-Keeps t new e p =
      put_state-Keeps ConnectionError AllReadable new
        (subst (Every (IsReadable x.cipher)) (sym e) p)

  change_row-Keeps :
      (i id : ℕ) (f : ConnectionRow → ConnectionRow)
      → ((r : ConnectionRow) → IsReadable x.cipher r → IsReadable x.cipher (f r))
      → Keeps AllReadable (change_row x i id f)
  unfolding change_row
  change_row-Keeps i id f k =
      bind-Keeps AllReadable _ _ (reading-Keeps _ (may_fail-Reads (Store D) _)) (λ _.
        get_state-Keeps AllReadable _ (λ t p.
          put_state-Keeps ConnectionError AllReadable _
            (update_rows-Every (IsReadable x.cipher) _ f t.rows k p)))

  insert_row-Keeps :
      (i : ℕ) (row : ConnectionRow)
      → IsReadable x.cipher row
      → Keeps AllReadable (insert_row x i row)
  unfolding insert_row
  insert_row-Keeps i row h =
      bind-Keeps AllReadable _ _ (reading-Keeps _ (may_fail-Reads (Store D) _)) (λ _.
        get_state-Keeps AllReadable _ (λ t p.
          bind-Keeps AllReadable _ _ (reading-Keeps _ (require-Reads (Store D) _ _)) (λ _.
            bind-Keeps AllReadable _ _ (reading-Keeps _ (require-Reads (Store D) _ _)) (λ _.
              put_state-Keeps ConnectionError AllReadable _
                (append-Every (IsReadable x.cipher) t.rows (row ∷ []) p (h, tt))))))

  insert_connection-Keeps : (i : ℕ) (c : Connection) → Keeps AllReadable (insert_connection x i c)
  unfolding insert_connection
  insert_connection-Keeps i c =
      lift-Keeps AllReadable (encrypt_secrets x.cipher x.nonces c) _ (λ s e.
        let row = row_of c s (x.clock i) in
        let readable =
          decrypt_secrets-encrypt_secrets x.cipher sound x.nonces long c row s e refl refl refl refl
            refl in
        bind-Keeps AllReadable _ _ (insert_row-Keeps i row (secrets_of c, readable))
          (λ _. reading-Keeps _ (return-Reads (Store D) _ c)))

  save_connection-Keeps : (i : ℕ) (c : Connection) → Keeps AllReadable (save_connection x i c)
  unfolding save_connection
  save_connection-Keeps i c =
      bind-Keeps AllReadable _ _
        (change_row-Keeps i c.id (renamed c (x.clock i))
          (renamed-IsReadable x.cipher c (x.clock i)))
        (λ _. reading-Keeps _ (return-Reads (Store D) _ c))

  remove_connection-Keeps : (i id : ℕ) → Keeps AllReadable (remove_connection x i id)
  unfolding remove_connection
  remove_connection-Keeps i id =
      change_row-Keeps i id (removed (x.clock i)) (removed-IsReadable x.cipher (x.clock i))

  cache_put-Keeps : (i id : ℕ) (json : Text) → Keeps AllReadable (cache_put x i id json)
  unfolding cache_put
  cache_put-Keeps i id json =
      get_state-Keeps AllReadable _ (λ t p. same_rows-Keeps t _ (ground arith) p)

  cache_del-Keeps : (i id : ℕ) → Keeps AllReadable (cache_del x i id)
  unfolding cache_del
  cache_del-Keeps i id = get_state-Keeps AllReadable _ (λ t p. same_rows-Keeps t _ (ground arith) p)

  drop_driver-Keeps : (id : ℕ) → Keeps AllReadable (drop_driver x id)
  unfolding drop_driver
  drop_driver-Keeps id = get_state-Keeps AllReadable _ (λ t p. same_rows-Keeps t _ refl p)

  register_driver-Keeps : (id : ℕ) (d : D) → Keeps AllReadable (register_driver x id d)
  unfolding register_driver
  register_driver-Keeps id d = get_state-Keeps AllReadable _ (λ t p. same_rows-Keeps t _ refl p)

  cache_get-Keeps : (i id : ℕ) → Keeps AllReadable (cache_get x i id)
  unfolding cache_get
  cache_get-Keeps i id =
      get_state-Keeps AllReadable _ (λ t p. reading-Keeps _ (return-Reads (Store D) _ _))

  known_connection-Keeps : (i id : ℕ) → Keeps AllReadable (known_connection x i id)
  known_connection-Keeps i id = reading-Keeps _ (known_connection-Reads x i id)

  list_for_workspace-Keeps : (i w : ℕ) → Keeps AllReadable (list_for_workspace x i w)
  list_for_workspace-Keeps i w = reading-Keeps _ (list_for_workspace-Reads x i w)

  return-Keeps : {A : Type 0} (a : A) → Keeps AllReadable (return {E = ConnectionError} a)
  return-Keeps a = reading-Keeps _ (return-Reads (Store D) _ a)

  require-Keeps : (b : Bool) (e : ConnectionError) → Keeps AllReadable (require b e)
  require-Keeps b e = reading-Keeps _ (require-Reads (Store D) b e)

  lifted-Keeps : {A : Type 0} (r : Result ConnectionError A) → Keeps AllReadable (lift r)
  lifted-Keeps r = reading-Keeps _ (lift-Reads (Store D) r)

  ruleset keeping = (
    bind-Keeps, match_option-Keeps, return-Keeps, require-Keeps, lifted-Keeps,
    known_connection-Keeps, list_for_workspace-Keeps, cache_get-Keeps, register_driver-Keeps,
    drop_driver-Keeps, cache_del-Keeps, cache_put-Keeps, insert_connection-Keeps,
    save_connection-Keeps, remove_connection-Keeps,
  )

  create_connection-Keeps : (c : Connection) → Keeps AllReadable (create_connection x c)
  unfolding create_connection
  create_connection-Keeps c = search keeping

  get_full-Keeps : (id org_id : ℕ) → Keeps AllReadable (get_full x id org_id)
  unfolding get_full
  get_full-Keeps id org_id = search keeping

  invalidate-Keeps : (i id : ℕ) → Keeps AllReadable (invalidate_schema_cache x i id)
  unfolding invalidate_schema_cache
  invalidate-Keeps i id = search keeping

  delete_connection-Keeps :
      (id requester : ℕ) → Keeps AllReadable (delete_connection x id requester)
  unfolding delete_connection
  delete_connection-Keeps id requester = search (keeping, invalidate-Keeps)

  connect_new-Keeps : (i id : ℕ) → Keeps AllReadable (connect_new x i id)
  unfolding connect_new
  connect_new-Keeps i id = search keeping

  get_or_connect-Keeps : (i id : ℕ) → Keeps AllReadable (get_or_connect x i id)
  unfolding get_or_connect
  get_or_connect-Keeps i id =
      get_state-Keeps AllReadable _ (λ t p. search (keeping, connect_new-Keeps))

  cache_set-Keeps : (i id : ℕ) (schema : M) → Keeps AllReadable (cache_set x i id schema)
  unfolding cache_set
  cache_set-Keeps i id schema = search keeping

  read_schema-Keeps : (i id : ℕ) → Keeps AllReadable (read_schema x i id)
  unfolding read_schema
  read_schema-Keeps i id = search (keeping, get_or_connect-Keeps, cache_set-Keeps) depth 8

  get_schema-Keeps : (i id : ℕ) → Keeps AllReadable (get_schema x i id)
  unfolding get_schema
  get_schema-Keeps i id = search (keeping, read_schema-Keeps)

  get_connection-Keeps : (i id : ℕ) → Keeps AllReadable (get_connection x i id)
  unfolding get_connection
  get_connection-Keeps i id = search keeping

  -- Under a sound cipher and nonces of twelve bytes, whatever is asked and whatever fails, the
  -- secrets of all connections in the table can be decrypted after a request where they could be
  -- before.
  pub after-AllReadable :
      (req : Request) (t : Store D) → AllReadable t → AllReadable (after x req t)
  unfolding after create_request update_request update_connection delete_request list_connections
      schema_request refresh_request
  after-AllReadable (creates auth body id now) t p =
      Keeps-state AllReadable (create_request x auth body id now)
        (search (keeping, create_connection-Keeps)) t p
  after-AllReadable (updates auth id body) t p =
      Keeps-state AllReadable (update_request x auth id body) (search (keeping, get_full-Keeps)) t p
  after-AllReadable (deletes auth id) t p =
      Keeps-state AllReadable _ (delete_connection-Keeps id auth.user_id) t p
  after-AllReadable (lists w) t p =
      Keeps-state AllReadable (list_connections x w) (search keeping) t p
  after-AllReadable (gets id) t p = Keeps-state AllReadable _ (get_connection-Keeps 0 id) t p
  after-AllReadable (reads_schema id) t p =
      Keeps-state AllReadable (schema_request x id)
        (search (keeping, get_connection-Keeps, get_schema-Keeps)) t p
  after-AllReadable (refreshes id) t p =
      Keeps-state AllReadable (refresh_request x id)
        (search (keeping, get_connection-Keeps, invalidate-Keeps, get_schema-Keeps)) t p
