-- ===== src/Connections/Names.antt =====
-- Theorems on the names of the kinds of database and of transport security, in
-- crates/app/src/features/connections/domain.rs.
use pairdbase.Common.{◌≡◌, refl, ok_or-eq-ok, ◌↔◌, ◌≢◌, ok, err, some, arith}
use pairdbase.Text.{text_eq, Text, codes, Unicode, match_text, match_text-name, trim, ascii_lower}
use pairdbase.Connections.Domain.{
  DbType, postgresql, mysql, mongodb, redis, sqlite, sqlserver, oracle, db_as_str, db_from_str,
  db_try_from, try_from_arms, ssl_arms, SslMode, disable, allow, prefer, require, verify_ca,
  verify_full, ssl_as_str, ssl_try_from,
}

db_try_from-as_str : (d : DbType) → db_try_from (db_as_str d) ≡ ok d
unfolding db_try_from db_as_str
db_try_from-as_str postgresql = refl
db_try_from-as_str _ = refl

db_try_from-name : (s : Text) (d : DbType) → db_try_from s ≡ ok d → s ≡ db_as_str d
unfolding db_try_from db_as_str
db_try_from-name s d h =
    match_text-name db_as_str s try_from_arms d
      (refl, (refl, (refl, (refl, (refl, (refl, (refl, tt)))))))
      (ok_or-eq-ok (match_text s try_from_arms) _ h)

-- `TryFrom<&str>` accepts exactly the seven stored names, each as the kind it names.
pub db_try_from_iff : (s : Text) (d : DbType) → (db_try_from s ≡ ok d) ↔ (s ≡ db_as_str d)
db_try_from_iff s d = (db_try_from-name s d, λ e. rw e (db_try_from-as_str d))

trim-ssl_as_str : (m : SslMode) → trim (ssl_as_str m) ≡ ssl_as_str m
unfolding trim ssl_as_str
trim-ssl_as_str disable = refl
trim-ssl_as_str _ = refl

match-ssl_as_str : (m : SslMode) → match_text (ssl_as_str m) ssl_arms ≡ some m
unfolding ssl_as_str match_text text_eq
match-ssl_as_str disable = refl
match-ssl_as_str _ = refl

module _ (u : Unicode) where
  lower-db_as_str : (d : DbType) → u.to_lowercase (db_as_str d) ≡ db_as_str d
  unfolding db_as_str ascii_lower
  lower-db_as_str postgresql = u.to_lowercase_ascii (codes "postgresql") (omega arith)
  lower-db_as_str mysql = u.to_lowercase_ascii (codes "mysql") (omega arith)
  lower-db_as_str mongodb = u.to_lowercase_ascii (codes "mongodb") (omega arith)
  lower-db_as_str redis = u.to_lowercase_ascii (codes "redis") (omega arith)
  lower-db_as_str sqlite = u.to_lowercase_ascii (codes "sqlite") (omega arith)
  lower-db_as_str sqlserver = u.to_lowercase_ascii (codes "sqlserver") (omega arith)
  lower-db_as_str oracle = u.to_lowercase_ascii (codes "oracle") (omega arith)

  lower-ssl_as_str : (m : SslMode) → u.to_lowercase (ssl_as_str m) ≡ ssl_as_str m
  unfolding ssl_as_str ascii_lower
  lower-ssl_as_str disable = u.to_lowercase_ascii (codes "disable") (omega arith)
  lower-ssl_as_str allow = u.to_lowercase_ascii (codes "allow") (omega arith)
  lower-ssl_as_str prefer = u.to_lowercase_ascii (codes "prefer") (omega arith)
  lower-ssl_as_str require = u.to_lowercase_ascii (codes "require") (omega arith)
  lower-ssl_as_str verify_ca = u.to_lowercase_ascii (codes "verify-ca") (omega arith)
  lower-ssl_as_str verify_full = u.to_lowercase_ascii (codes "verify-full") (omega arith)

  known-db_from_str : (d : DbType) → d ≢ redis → d ≢ sqlite → db_from_str u (db_as_str d) ≡ ok d
  unfolding db_from_str
  known-db_from_str redis r s = absurd (r refl)
  known-db_from_str sqlite r s = absurd (s refl)
  known-db_from_str d r s = rw (lower-db_as_str d) (unfold db_as_str in refl)

  -- `FromStr` reads back every stored name but two: it does not know `redis` and `sqlite`, which it
  -- refuses with a message that ends in the name.
  pub db_from_str-as_str :
      ((d : DbType) → d ≢ redis → d ≢ sqlite → db_from_str u (db_as_str d) ≡ ok d)
      × (db_from_str u (db_as_str redis) ≡ err (codes "Unsupported database type: redis"))
      × (db_from_str u (db_as_str sqlite) ≡ err (codes "Unsupported database type: sqlite"))
  unfolding db_from_str
  db_from_str-as_str = (
    known-db_from_str,
    rw (lower-db_as_str redis) (unfold db_as_str in refl),
    rw (lower-db_as_str sqlite) (unfold db_as_str in refl),
  )

  -- Every name of a transport mode is read back.
  pub ssl_try_from-as_str : (m : SslMode) → ssl_try_from u (ssl_as_str m) ≡ ok m
  unfolding ssl_try_from
  ssl_try_from-as_str m = rw (trim-ssl_as_str m, lower-ssl_as_str m, match-ssl_as_str m)
