-- ===== src/Query/Examples/Sessions.antt =====
-- The theorems about sessions at a registry with one session.
use pairdbase.Common.{◌≡◌, ◌≢◌, refl, none, some, arith}
use pairdbase.Common.Maps.{lookup, insert}
use pairdbase.Connections.Domain.{postgresql}
use pairdbase.Query.Session.{
  new, opened, create, get_for_connection, remove_expired, ttl_for, ids_of,
}
use pairdbase.Query.Session.Invariant.{
  IsValid, IsFresh, Reach, start, next, creates, sweeps, Reach-IsValid,
}
use pairdbase.Query.Session.Lookup.{
  IsUsable, get_for_connection-IsUsable, get_for_connection-ne-none,
}
use pairdbase.Query.Examples.{one_session}

-- `one_session` is what the first session makes of an empty registry.
one_session_created : (create new 1 0 3 7 postgresql).0 ≡ one_session
unfolding create new insert lookup
one_session_created = refl

first_IsFresh : IsFresh 1 new
unfolding new lookup ids_of
first_IsFresh = record { not_stored = refl; not_listed = λ user. refl }

pub one_session-Reach : Reach one_session
unfolding create new insert lookup
one_session-Reach = next start (creates 1 0 3 7 postgresql first_IsFresh)

pub one_session-IsValid : IsValid one_session
one_session-IsValid = Reach-IsValid one_session-Reach

Reach-IsValid_example : IsValid (remove_expired one_session 5)
Reach-IsValid_example = Reach-IsValid (next one_session-Reach (sweeps 5))

found : get_for_connection one_session 7 3 5 ≡ some (opened 1 0 3 7 postgresql)
unfolding get_for_connection lookup ttl_for
found = refl

get_for_connection-IsUsable_example : IsUsable one_session 7 3 5 (opened 1 0 3 7 postgresql)
get_for_connection-IsUsable_example =
    get_for_connection-IsUsable one_session 7 3 5 (opened 1 0 3 7 postgresql) one_session-IsValid
      found

get_for_connection-ne-none_example : get_for_connection one_session 7 3 5 ≢ none
get_for_connection-ne-none_example =
    get_for_connection-ne-none one_session 7 3 5 (opened 1 0 3 7 postgresql) one_session-IsValid
      get_for_connection-IsUsable_example

pub second_IsFresh : IsFresh 2 one_session
unfolding lookup ids_of
second_IsFresh = record { not_stored = refl; not_listed = λ user. ground arith }
