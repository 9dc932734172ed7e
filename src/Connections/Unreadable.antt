-- ===== src/Connections/Unreadable.antt =====
-- The kinds whose stored name `FromStr` does not read (crates/app/src/features/connections).
use mathlib.Core.List.{reverse}
use pairdbase.Common.{
  ℕ, ◌≡◌, ◌⊎◌, inl, inr, refl, Bool, true, false, Option, List, [], ◌∷◌, ◌++◌, Result, ok, err,
  arith, any_of, keep, sort_by, collect, ap, ◌∙◌, any_of-reverse, any_of-sort_by, any_of-keep,
}
use pairdbase.Common.Actions.{◌>>=◌}
use pairdbase.Text.{Unicode}
use pairdbase.Connections.Domain.{DbType, redis, sqlite, db_from_str, db_as_str}
use pairdbase.Connections.Names.{db_from_str-as_str}
use pairdbase.Connections.Rows.{
  Connection, ConnectionRow, ConnectionView, Secrets, map_connection, row_of,
}
use pairdbase.Connections.Vault.{Cipher}
use pairdbase.Connections.Repository.{Store, Surroundings, is_listed, list_for_workspace}
use pairdbase.Connections.UseCases.{create_connection}
use pairdbase.Connections.Creation.{create_connection-run}

abbrev is_err {ℓ κ} : {E : Type ℓ} {A : Type κ} → Result E A → Bool
is_err (ok a) = false
is_err (err e) = true

-- The answer is an error.
abbrev pub IsError {ℓ κ} : {E : Type ℓ} {A : Type κ} → Result E A → Type (ℓ ⊔ κ)
IsError {E} {A} r = (e : E) × (r ≡ err e)

is_err→IsError {ℓ κ} : {E : Type ℓ} {A : Type κ} (r : Result E A) → is_err r ≡ true → IsError r
is_err→IsError (ok a) h = cc
is_err→IsError (err e) h = (e, refl)

collect-is_err {ℓ κ μ} :
    {A : Type ℓ} {E : Type κ} {B : Type μ} (f : A → Result E B) (xs : List A)
    → any_of (λ x. is_err (f x)) xs ≡ true
    → is_err (collect f xs) ≡ true
collect-is_err f [] h = cc
collect-is_err f (x ∷ xs) h = ground (arith, collect-is_err f xs)

abbrev pub IsUnreadable : DbType → Type 0
IsUnreadable kind = (kind ≡ redis) ⊎ (kind ≡ sqlite)

unreadable_name :
    (u : Unicode) (kind : DbType)
    → IsUnreadable kind
    → is_err (db_from_str u (db_as_str kind)) ≡ true
unreadable_name u kind (inl e) = rw e (ap is_err ((db_from_str-as_str u).1))
unreadable_name u kind (inr e) = rw e (ap is_err ((db_from_str-as_str u).2))

map_connection-is_err :
    (u : Unicode) (e : Cipher) (c : Connection) (s : Secrets (Option (List ℕ))) (now : ℕ)
    → IsUnreadable c.db_type
    → is_err (map_connection u e (row_of c s now)) ≡ true
unfolding map_connection
map_connection-is_err u e c s now h = let k = unreadable_name u c.db_type h in ground arith

new-is_listed :
    (c : Connection) (s : Secrets (Option (List ℕ))) (now : ℕ)
    → is_listed c.workspace_id (row_of c s now) ≡ true
unfolding is_listed
new-is_listed c s now = ground arith

listing_fails :
    (u : Unicode) (e : Cipher) (c : Connection) (s : Secrets (Option (List ℕ))) (now : ℕ)
    (rows : List ConnectionRow)
    → IsUnreadable c.db_type
    → is_err (
        collect (map_connection u e) (
          reverse (
            sort_by
              (λ r. r.created_at)
              (keep (is_listed c.workspace_id) (rows ++ row_of c s now ∷ [])))))
      ≡ true
listing_fails u e c s now rows h =
    let p = λ (r : ConnectionRow). is_err (map_connection u e r) in
    collect-is_err (map_connection u e) _ (
      any_of-reverse p _
      ∙ any_of-sort_by p (λ r. r.created_at) _
      ∙ any_of-keep p (is_listed c.workspace_id) (row_of c s now) rows
          (map_connection-is_err u e c s now h) (new-is_listed c s now))

module _ {D M : Type 0} (x : Surroundings D M) where
  list_for_workspace-is_err :
      (i w : ℕ) (t : Store D)
      → is_err (
          collect
            (map_connection x.unicode x.cipher)
            (reverse (sort_by (λ r. r.created_at) (keep (is_listed w) t.rows))))
        ≡ true
      → is_err (list_for_workspace x i w t).1 ≡ true
  unfolding list_for_workspace ◌>>=◌
  list_for_workspace-is_err i w t h = ground arith

  create_connection-is_err :
      (c : Connection) (t : Store D)
      → is_err (list_for_workspace x 0 c.workspace_id t).1 ≡ true
      → is_err (create_connection x c t).1 ≡ true
  unfolding create_connection ◌>>=◌
  create_connection-is_err c t h = ground arith

-- After a connection to Redis or of SQLite was created without an error, whatever else is stored:
-- each listing of its workspace is answered with an error, and so is each creation of a connection
-- in the workspace.
pub create_connection-blocks :
    {D M : Type 0} (x y : Surroundings D M) (c next : Connection) (t : Store D)
    (view : ConnectionView)
    → IsUnreadable c.db_type
    → (create_connection x c t).1 ≡ ok view
    → next.workspace_id ≡ c.workspace_id
    → IsError (list_for_workspace y 0 c.workspace_id (create_connection x c t).0).1
      × IsError (create_connection y next (create_connection x c t).0).1
create_connection-blocks x y c next t view kind h same =
    let (_, _, _, inserted) = create_connection-run x c t view h in
    let listing = list_for_workspace-is_err y 0 c.workspace_id (create_connection x c t).0 (
      ap
        (λ z. is_err (
          collect (map_connection y.unicode y.cipher)
            (reverse (sort_by (λ r. r.created_at) (keep (is_listed c.workspace_id) z.rows)))))
        inserted.added
      ∙ listing_fails y.unicode y.cipher c inserted.secrets (x.clock 1) t.rows kind) in
    (
      is_err→IsError _ listing,
      is_err→IsError _ (
          create_connection-is_err y next _ (
            ap (λ w. is_err (list_for_workspace y 0 w (create_connection x c t).0).1) same
            ∙ listing)),
    )
