-- ===== src/Organization/Answers.antt =====
-- Requests of crates/app/src/features/organization that cannot be answered without an error: what
-- crates/app/src/features/organization/repository.rs writes lacks a column that
-- migrations/20260921150144_create_tbl_organization.sql wants, and what it selects lacks columns
-- that the structs of domain.rs take.
use pairdbase.Common.{
  Result, err, false, ℕ, ◌≡◌, refl, ap, ◌∙◌, Bool, true, not, Option, none, some, List, ok,
  ok_apart, ok_or, any_of, is_some, find, Option-cases, inl, inr,
}
use pairdbase.Common.Actions.{
  ◌>>=◌, ◌>>◌, bind-run, bind-ok, at_state-ok, match_option, raise, return, lift, may_fail,
}
use pairdbase.Text.{Text, text_eq}
use pairdbase.Organization.Domain.{
  OrgError, OrgRole, org_role_as_str, org_owner, invitation_not_found,
}
use pairdbase.Organization.Rows.{Organization, OrgInvitation, OrgInvitationRow}
use pairdbase.Organization.Database.{Database, Environment, Run, decoded, internal_fault}
use pairdbase.Organization.Repository.Members.{add_org_member, insert_org_member}
use pairdbase.Organization.Repository.Organizations.{
  brief_columns, organization_fields, update_organization, get_org_usage,
}
use pairdbase.Organization.Repository.Invitations.{
  token_columns, invitation_fields, by_token, find_invitation_by_token, insert_invitation,
  create_invitation, new_invitation,
}
use pairdbase.Organization.UseCases.{
  CreateOrgRequest, UpdateOrgRequest, create_organization, update_settings, get_usage,
}
use pairdbase.Organization.UseCases.Invitations.{invite_member, accept_invitation}
use pairdbase.Organization.Reading.{call-Reads}

-- Whatever the tables hold, the answer is an error.
unfoldable pub Never {ℓ} : {A : Type ℓ} → Run A → Type ℓ
Never {A = A} act = (db : Database) (x : A) → (act db).1 ≡ ok x → ⊥

raise-Never {ℓ} : (A : Type ℓ) (e : OrgError) → Never (raise {A = A} e)
unfolding Never
raise-Never A e db x h = ok_apart e x h

first-Never {ℓ κ} :
    {A : Type ℓ} {B : Type κ} (m : Run A) (next : A → Run B) → Never m → Never (m >>= next)
unfolding Never
first-Never m next n db y h = let (x, a, _, _) = bind-run m next db h in n db x a

next-Never {ℓ κ} :
    {A : Type ℓ} {B : Type κ} (m : Run A) (next : A → Run B)
    → ((x : A) → Never (next x))
    → Never (m >>= next)
unfolding Never
next-Never m next n db y h = let (x, _, b, _) = bind-run m next db h in n x (m db).0 y b

match_option-Never {ℓ κ} :
    {A : Type ℓ} {B : Type κ} (o : Option A) (absent : Run B) (present : A → Run B)
    → Never absent
    → ((x : A) → Never (present x))
    → Never (match_option o absent present)
unfolding match_option
match_option-Never none absent present n k = n
match_option-Never (some x) absent present n k = k x

ruleset failing = (raise-Never, first-Never, next-Never, match_option-Never)

insert_org_member-Never :
    (w : Environment) (i now o u : ℕ) (role : Text)
    → Never (insert_org_member w i now o u role none)
unfolding insert_org_member
insert_org_member-Never w i now o u role = search failing

add_org_member-Never : (w : Environment) (i o u : ℕ) → Never (add_org_member w i o u org_owner none)
unfolding add_org_member
add_org_member-Never w i o u =
    insert_org_member-Never w i (w.clock i) o u (org_role_as_str org_owner)

create_organization-Never :
    (w : Environment) (req : CreateOrgRequest) (u : ℕ) → Never (create_organization w req u)
unfolding create_organization
create_organization-Never w req u = next-Never _ _ (λ _.
    next-Never _ _
      (λ _. next-Never _ _ (λ saved. first-Never _ _ (add_org_member-Never w 4 saved.id u))))

insert_invitation-Never :
    (w : Environment) (i : ℕ) (token : Text) (row : ℕ → OrgInvitationRow)
    → Never (insert_invitation w i token row none)
unfolding insert_invitation
insert_invitation-Never w i token row = search failing

create_invitation-Never :
    (w : Environment) (i o : ℕ) (email : Text) (role : OrgRole) (u : ℕ) (token : Text)
    → Never (create_invitation w i o email role u token)
unfolding create_invitation
create_invitation-Never w i o email role u token =
    first-Never _ _ (insert_invitation-Never w i token (new_invitation w i o email role u token))

invite_member-Never :
    (w : Environment) (o : ℕ) (email role : Text) (u : ℕ) → Never (invite_member w o email role u)
unfolding invite_member
invite_member-Never w o email role u = next-Never _ _ (λ new.
    next-Never _ _ (λ _. first-Never _ _ (create_invitation-Never w 6 o email new u w.token)))

abbrev pub is_error {ℓ} : {A : Type ℓ} → Result OrgError A → Bool
is_error (ok x) = false
is_error (err e) = true

is_error-lem {ℓ} :
    {A : Type ℓ} (r : Result OrgError A) → ((x : A) → r ≡ ok x → ⊥) → is_error r ≡ true
is_error-lem (ok x) h = absurd (h x refl)
is_error-lem (err e) h = refl

Never-is_error {ℓ} :
    {A : Type ℓ} (act : Run A) → Never act → (db : Database) → is_error (act db).1 ≡ true
unfolding Never
Never-is_error act n db = is_error-lem (act db).1 (n db)

-- Neither the creation of an organization nor an invitation is ever answered without an error: the
-- row of the owner's membership has a null CREATED_BY, and that of the invitation none.
pub not_null-is_error :
    (w : Environment) (req : CreateOrgRequest) (o : ℕ) (email role : Text) (u : ℕ) (db : Database)
    → (is_error (create_organization w req u db).1 ≡ true)
      × (is_error (invite_member w o email role u db).1 ≡ true)
not_null-is_error w req o email role u db = (
  Never-is_error (create_organization w req u) (create_organization-Never w req u) db,
  Never-is_error (invite_member w o email role u) (invite_member-Never w o email role u) db,
)

-- A field for which no column of that name is selected.
unfoldable pub lacks : List Text → List Text → Bool
unfolding text_eq
lacks columns fields = any_of (λ field. not (any_of (text_eq field) columns)) fields

-- A row without the column of a field cannot be read into the struct.
abbrev pub RejectsMissing : Environment → Type 0
RejectsMissing w =
    (columns fields : List Text)
    → lacks columns fields ≡ true
    → is_some (w.decode columns fields) ≡ true

may_fail-Never :
    (o : Option Text) → is_some o ≡ true → Never (may_fail {S = Database} (internal_fault o))
unfolding Never
may_fail-Never none h db x k = cc
may_fail-Never (some e) h db x k = cc

module _ (w : Environment) (rejects : RejectsMissing w) where
  decoded-Never :
      (columns fields : List Text) → lacks columns fields ≡ true → Never (decoded w columns fields)
  decoded-Never columns fields h =
      may_fail-Never (w.decode columns fields) (rejects columns fields h)

  brief_lacks : lacks brief_columns organization_fields ≡ true
  unfolding lacks brief_columns organization_fields
  brief_lacks = refl

  token_lacks : lacks token_columns invitation_fields ≡ true
  unfolding lacks token_columns invitation_fields
  token_lacks = refl

  brief-Never : Never (decoded w brief_columns organization_fields)
  brief-Never = decoded-Never brief_columns organization_fields brief_lacks

  update_settings-Never :
      (o : ℕ) (req : UpdateOrgRequest) (u : ℕ) → Never (update_settings w o req u)
  unfolding update_settings update_organization
  update_settings-Never o req u = search (failing, brief-Never) depth 14

  get_usage-Never : (o u : ℕ) → Never (get_usage w o u)
  unfolding get_usage get_org_usage
  get_usage-Never o u = search (failing, brief-Never) depth 14

  token-Never : Never (decoded w token_columns invitation_fields)
  token-Never = decoded-Never token_columns invitation_fields token_lacks

  no_invitation :
      (o : Option OrgInvitationRow) (read : OrgInvitationRow → Run (Option OrgInvitation))
      (db : Database) (invitation : OrgInvitation)
      → (match_option o
          (return none)
          (λ row. decoded w token_columns invitation_fields >> read row)
          db).1
        ≡ ok (some invitation)
      → ⊥
  unfolding match_option Never
  no_invitation none read db invitation h = cc
  no_invitation (some row) read db invitation h =
      first-Never _ (λ _. read row) token-Never db (some invitation) h

  find_invitation_by_token-none :
      (i : ℕ) (token : Text) (db : Database) (invitation : OrgInvitation)
      → (find_invitation_by_token w i token db).1 ≡ ok (some invitation)
      → ⊥
  unfolding find_invitation_by_token
  find_invitation_by_token-none i token db invitation h =
      let (_, _, k) = bind-ok _ _ db (call-Reads w i) h in
      no_invitation (find (by_token token (w.clock i)) db.invitations) _ db invitation
        (at_state-ok _ db k)

  not_found-Never :
      (o : Option OrgInvitation) (next : OrgInvitation → Run Organization)
      → o ≡ none
      → Never (lift (ok_or o invitation_not_found) >>= next)
  unfolding Never ◌>>=◌
  not_found-Never none next e db x h = cc
  not_found-Never (some i) next e db x h = cc

  accept_invitation-Never : (token : Text) (u : ℕ) → Never (accept_invitation w token u)
  unfolding accept_invitation Never
  accept_invitation-Never token u db x h =
      let (found, a, k, _) = bind-run _ _ db h in
      elim (Option-cases found) [
        | inl e ↦ not_found-Never found _ e (find_invitation_by_token w 0 token db).0 x k
        | inr (invitation, e) ↦
            absurd (find_invitation_by_token-none 0 token db invitation (a ∙ ap ok e))
      ]

  -- Where a row cannot be read without a column for each field of its struct, no change of an
  -- organization's settings, no question for its usage and no acceptance of an invitation is ever
  -- answered without an error: the statements select too few columns.
  pub missing_columns-is_error :
      (o : ℕ) (req : UpdateOrgRequest) (token : Text) (u : ℕ) (db : Database)
      → (is_error (update_settings w o req u db).1 ≡ true)
        × (is_error (get_usage w o u db).1 ≡ true)
        × (is_error (accept_invitation w token u db).1 ≡ true)
  missing_columns-is_error o req token u db = (
    Never-is_error (update_settings w o req u) (update_settings-Never o req u) db,
    Never-is_error (get_usage w o u) (get_usage-Never o u) db,
    Never-is_error (accept_invitation w token u) (accept_invitation-Never token u) db,
  )
