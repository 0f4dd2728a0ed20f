-- ===== src/Examples/Members.antt =====
-- A project "p" with the owners "ann" and "bob" and the member "cid".
use code_intelegence.Base.{
  String, ◌≡◌, ◌≢◌, refl, true, ◌&&◌, Option, none, some, List, [], ◌∷◌, arith, ◌==◌, ◌⊎◌,
  if◌then◌else◌, lookup,
}
use code_intelegence.Domain.Errors.{ok, err, bad_request}
use code_intelegence.Domain.Roles.{
  role_owner, role_admin, role_member, key_role_read, key_role_write, role_sufficient,
  key_role_sufficient, membership_role_to_key_role,
}
use code_intelegence.Postgres.Tx.{healthy}
use code_intelegence.Membership.Rows.{Db, MemberRow, ProjectMember, find_row, count_owner_rows}
use code_intelegence.Membership.Service.{update_role, remove}
use code_intelegence.Membership.Owners.{
  IsOwned, Request, update, invite, expel, serve_all, serve_all-IsOwned,
}
use code_intelegence.Membership.Guards.{update_role_authorised, remove_lem}

abbrev row : String → String → MemberRow
row u r = record { project_id = "p"; user_id = u; role = r }

abbrev actor : String → String → Option ProjectMember
actor u r = some (record { project_id = "p"; user_id = u; role = r })

abbrev tables : Db
tables = record {
  members = row "ann" "owner" ∷ row "bob" "owner" ∷ row "cid" "member" ∷ [];
  users = ("ann", true) ∷ ("bob", true) ∷ ("cid", true) ∷ ("dan", true) ∷ [];
}

tables-IsOwned : IsOwned "p" tables
unfolding count_owner_rows lookup find_row
tables-IsOwned = record { keys = (refl, (refl, (refl, tt))); owned = omega arith }

abbrev requests : List Request
requests =
    update healthy "p" "ann" (actor "bob" "owner") "member"
    ∷ expel healthy "p" "bob" (actor "bob" "owner")
    ∷ invite healthy "p" "dan" (actor "bob" "owner") (λ _. true) "admin"
    ∷ []

serve_all-IsOwned_example : IsOwned "p" (serve_all requests tables)
serve_all-IsOwned_example = serve_all-IsOwned "p" requests tables tables-IsOwned

abbrev demoted : Db
demoted = record tables {
  members = row "ann" "member" ∷ row "bob" "owner" ∷ row "cid" "member" ∷ [];
}

abbrev ann_demoted : ProjectMember
ann_demoted = record { project_id = "p"; user_id = "ann"; role = "member" }

demotes :
    update_role healthy "p" "ann" (actor "bob" "owner") "member" tables ≡ (ok ann_demoted, demoted)
unfolding update_role code_intelegence.Membership.Service.validate_actor
    code_intelegence.Membership.Service.check_update_role code_intelegence.Domain.Roles.role_known
    role_sufficient code_intelegence.Postgres.Tx.with_tx
    code_intelegence.Membership.Service.update_role_tx find_row count_owner_rows lookup
    code_intelegence.Membership.Rows.set_role
demotes = refl

update_role_authorised_example :
    (a : ProjectMember) × (t : MemberRow) × (actor "bob" "owner" ≡ some a)
    × (a.project_id ≡ "p")
    × (a.user_id ≢ "ann")
    × (role_sufficient a.role role_admin ≡ true)
    × (find_row "p" "ann" tables.members ≡ some t)
    × ((a.role ≢ role_admin) ⊎ (("member" ≢ role_owner) × (t.role ≢ role_owner)))
update_role_authorised_example =
    update_role_authorised healthy "p" "ann" (actor "bob" "owner") "member" tables demotes

refuses :
    update_role healthy "p" "ann" (actor "ann" "owner") "member" tables
    ≡ (err (bad_request "cannot change your own role"), tables)
unfolding update_role code_intelegence.Membership.Service.validate_actor
    code_intelegence.Membership.Service.check_update_role code_intelegence.Domain.Roles.role_known
refuses = refl

abbrev removed : Db
removed = record tables { members = row "ann" "owner" ∷ row "bob" "owner" ∷ [] }

removes : remove healthy "p" "cid" (actor "cid" "member") tables ≡ (ok tt, removed)
unfolding remove code_intelegence.Membership.Service.validate_actor
    code_intelegence.Membership.Service.check_remove code_intelegence.Postgres.Tx.with_tx
    code_intelegence.Membership.Service.remove_tx find_row
    code_intelegence.Membership.Rows.drop_rows
removes = refl

remove_lem_example :
    (a : ProjectMember) × (t : MemberRow) × (actor "cid" "member" ≡ some a)
    × (a.project_id ≡ "p")
    × (find_row "p" "cid" tables.members ≡ some t)
    × (find_row "p" "ann" removed.members
        ≡ (if "p" == "p" && "cid" == "ann" then none else find_row "p" "ann" tables.members))
    × ((a.user_id ≡ "cid")
        ⊎ (role_sufficient a.role role_admin ≡ true)
          × ((a.role ≢ role_admin) ⊎ (t.role ≢ role_owner)))
remove_lem_example = remove_lem healthy "p" "cid" (actor "cid" "member") tables "p" "ann" removes

owner_admin : role_sufficient role_owner role_admin ≡ true
unfolding role_sufficient
owner_admin = refl

admin_member : role_sufficient role_admin role_member ≡ true
unfolding role_sufficient
admin_member = refl

admin_needs_write : membership_role_to_key_role role_admin ≡ some key_role_write
unfolding membership_role_to_key_role
admin_needs_write = refl
