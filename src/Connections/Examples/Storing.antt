-- ===== src/Connections/Examples/Storing.antt =====
-- Requests on connections at a concrete store.
use pairdbase.Common.{ℕ, ◌≡◌, refl, false, none, some, [], ◌∷◌, ok, arith, inl}
use pairdbase.Common.Int.{wrap_i32}
use pairdbase.Common.Maps.{lookup, insert, remove}
use pairdbase.Common.Actions.{◌>>=◌, match_option}
use pairdbase.Text.{Text, codes, text_eq, ascii, ascii_lower, match_text}
use pairdbase.Connections.Domain.{DbType, postgresql, redis, db_as_str, db_from_str}
use pairdbase.Connections.Vault.{encrypt, decrypt, open_sealed, encrypt_opt, decrypt_opt}
use pairdbase.Connections.Examples.{tagging, tagging-IsSound, nonce, sealed}
use pairdbase.Connections.Rows.{
  Connection, view_of, row_of, map_connection, encrypt_secret, encrypt_secrets, decrypt_optional,
  decrypt_secrets, low_bits,
}
use pairdbase.Connections.Repository.{
  Store, Surroundings, is_stored, find_connection, list_for_workspace, insert_row, passes_checks,
  insert_connection, change_row, remove_connection,
}
use pairdbase.Connections.UseCases.{
  cached_text, cache_get, cache_put, cache_set, cache_del, drop_driver, is_taken, known_connection,
  get_full, create_connection, delete_connection, invalidate_schema_cache, build_driver,
  register_driver, connect_new, get_or_connect, read_schema, get_schema, get_connection,
}
use pairdbase.Connections.Requests.{deletes, after, refresh_request}
use pairdbase.Connections.Storage.{secrets_of, IsTyped, stored_as}
use pairdbase.Connections.Creation.{get_full-create_connection}
use pairdbase.Connections.Unreadable.{IsError, create_connection-blocks}
use pairdbase.Connections.Removal.{IsDeleted, delete_connection-IsDeleted}
use pairdbase.Connections.Schemas.{IsFresh, refresh_request-IsFresh, get_schema-get_schema}
use pairdbase.Connections.Secrets.{AllReadable, after-AllReadable}

-- A driver is a number, and a schema a text, which is its own JSON.
abbrev calm : Surroundings ℕ Text
calm = record {
  fault = λ i. none;
  clock = λ i. 100;
  redis_fails = λ i. false;
  nonces = λ i. nonce;
  cipher = tagging;
  unicode = ascii;
  connect = λ kind c. ok 5;
  ping = λ d. ok (codes "16.1", 3);
  fetch_schema = λ d. ok (codes "tables");
  to_json = λ s. some s;
  from_json = λ s. some s;
}

abbrev warehouse : DbType → Connection
warehouse kind = record {
  id = 4;
  organization_id = 1;
  workspace_id = 2;
  name = codes "warehouse";
  db_type = kind;
  host = some (codes "db.acme.io");
  port = some 5432;
  database_name = none;
  username = some (codes "ann");
  password = some (codes "secret");
  ssl_mode = codes "prefer";
  ssl_ca_cert = none;
  ssl_client_cert = none;
  ssl_client_key = none;
  ssh_enabled = false;
  ssh_host = none;
  ssh_port = none;
  ssh_user = none;
  ssh_private_key = none;
  read_only = false;
  color = none;
  pool_min = 1;
  pool_max = 10;
  created_by = 7;
  created_at = 90;
  updated_by = none;
  updated_at = none;
  is_soft_deleted = false;
  deleted_by = none;
  deleted_at = none;
}

warehouse-IsTyped : (kind : DbType) → IsTyped (warehouse kind)
warehouse-IsTyped kind = record {
  port = omega arith;
  ssh_port = tt;
  pool_min = omega arith;
  pool_max = omega arith;
}

abbrev empty : Store ℕ
empty = record { rows = []; drivers = []; cache = [] }

creating :
    (kind : DbType)
    → (create_connection calm (warehouse kind) empty).1 ≡ ok (view_of (warehouse kind))
unfolding create_connection list_for_workspace is_taken insert_connection encrypt_secrets
    encrypt_secret encrypt_opt encrypt insert_row passes_checks wrap_i32 ◌>>=◌
creating kind = refl

get_full-create_connection_example :
    (get_full calm 4 1 (create_connection calm (warehouse postgresql) empty).0).1
    ≡ ok (stored_as (warehouse postgresql) 100)
get_full-create_connection_example =
    get_full-create_connection calm tagging-IsSound (λ i. refl) (warehouse postgresql)
      (warehouse-IsTyped postgresql) calm empty (view_of (warehouse postgresql)) (cc) (cc)
      (creating postgresql) refl refl

create_connection-blocks_example :
    IsError (list_for_workspace calm 0 2 (create_connection calm (warehouse redis) empty).0).1
    × IsError
        (create_connection calm
          (warehouse postgresql)
          (create_connection calm (warehouse redis) empty).0).1
create_connection-blocks_example =
    create_connection-blocks calm calm (warehouse redis) (warehouse postgresql) empty
      (view_of (warehouse redis)) (inl refl) (creating redis) refl

-- The store with one connection.
abbrev one : Store ℕ
one = record {
  rows =
      row_of (warehouse postgresql)
        (record {
          password = some sealed;
          ssl_ca_cert = none;
          ssl_client_cert = none;
          ssl_client_key = none;
          ssh_private_key = none;
        })
        100
      ∷ [];
  drivers = [];
  cache = [];
}

deleting : (delete_connection calm 4 7 one).1 ≡ ok tt
unfolding known_connection find_connection is_stored map_connection db_from_str db_as_str match_text
    text_eq ascii ascii_lower decrypt_secrets decrypt_optional decrypt_opt decrypt open_sealed
    low_bits wrap_i32 ◌>>=◌ delete_connection invalidate_schema_cache cache_del drop_driver
    remove_connection change_row
deleting = refl

delete_connection-IsDeleted_example : IsDeleted calm 4 7 one (delete_connection calm 4 7 one).0
delete_connection-IsDeleted_example = delete_connection-IsDeleted calm 4 7 one deleting

refreshing : (refresh_request calm 4 one).1 ≡ ok (codes "tables")
unfolding known_connection find_connection is_stored map_connection db_from_str db_as_str match_text
    text_eq ascii ascii_lower decrypt_secrets decrypt_optional decrypt_opt decrypt open_sealed
    low_bits wrap_i32 ◌>>=◌ refresh_request get_connection invalidate_schema_cache cache_del
    drop_driver get_schema cache_get cached_text lookup remove match_option read_schema
    get_or_connect connect_new build_driver register_driver insert cache_set cache_put
refreshing = refl

refresh_request-IsFresh_example : IsFresh calm 4 one (codes "tables")
refresh_request-IsFresh_example =
    refresh_request-IsFresh calm 4 one (codes "tables") refl refreshing

reading : (get_schema calm 0 4 one).1 ≡ ok (codes "tables")
unfolding known_connection find_connection is_stored map_connection db_from_str db_as_str match_text
    text_eq ascii ascii_lower decrypt_secrets decrypt_optional decrypt_opt decrypt open_sealed
    low_bits wrap_i32 ◌>>=◌ get_schema cache_get cached_text lookup match_option read_schema
    get_or_connect connect_new build_driver register_driver insert cache_set cache_put
reading = refl

nothing_cached : lookup 4 one.cache ≡ none
unfolding lookup
nothing_cached = refl

-- The open drivers are gone by the second request.
get_schema-get_schema_example :
    (get_schema calm 5 4 (record (get_schema calm 0 4 one).0 { drivers = [] })).1
    ≡ ok (codes "tables")
get_schema-get_schema_example =
    get_schema-get_schema calm calm 5 4 one (record (get_schema calm 0 4 one).0 { drivers = [] })
      (codes "tables") (codes "tables") nothing_cached reading refl refl refl refl refl
      (omega arith)

all_readable : AllReadable calm tagging-IsSound (λ i. refl) one
unfolding decrypt_secrets decrypt_optional decrypt_opt decrypt open_sealed
all_readable = ((secrets_of (warehouse postgresql), refl), tt)

after-AllReadable_example :
    AllReadable calm tagging-IsSound
      (λ i. refl)
      (after calm (deletes (record { user_id = 7; org_id = 1; role = codes "member" }) 4) one)
after-AllReadable_example =
    after-AllReadable calm tagging-IsSound (λ i. refl)
      (deletes (record { user_id = 7; org_id = 1; role = codes "member" }) 4) one all_readable
