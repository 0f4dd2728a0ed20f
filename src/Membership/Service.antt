-- ===== src/Membership/Service.antt =====
-- backend-api/internal/membership/service.go: UpdateRole, Add and Remove.
use code_intelegence.Base.{String, Bool, not, ◌&&◌, Option, none, some, ◌==◌, leb, if◌then◌else◌}
use code_intelegence.Domain.Errors.{
  AppError, GoError, app, wrap, Result, ok, err, bad_request, forbidden, not_found, conflict,
  err_internal, is_no_rows, is_unique_violation, app_error_of,
}
use code_intelegence.Domain.Roles.{role_owner, role_admin, role_known, role_sufficient}
use code_intelegence.Postgres.Tx.{Server, Body, pure, fail_if, on_error, with_tx, ◌>>=◌, ◌>>◌}
use code_intelegence.Membership.Rows.{
  Db, ProjectMember, db_member_to_domain, get_project_member_for_update,
  count_project_owners_for_update, update_project_member_role, delete_project_member,
  create_project_member, get_user_by_id,
}

abbrev requires_owner : AppError
requires_owner = forbidden "requires owner role for this action"

-- The actor, if it is present and belongs to the project.
unfoldable pub validate_actor : Option ProjectMember → String → Result AppError ProjectMember
validate_actor none project_id = err (bad_request "missing actor context")
validate_actor (some actor) project_id =
    if not (actor.project_id == project_id)
    then err (forbidden "actor not authorized for this project")
    else ok actor

abbrev get_member_failed : GoError → GoError
get_member_failed e =
    if is_no_rows e
    then app (not_found "user is not a member of this project")
    else wrap "get member for update" e

-- Rejects the change when at most one owner is left.
abbrev keep_last_owner : String → String → Body Db (Unit {0})
keep_last_owner project_id message = do
  count ← on_error (wrap "count owners") (count_project_owners_for_update project_id)
  fail_if (leb count 1) (app (conflict message))

-- The callback of UpdateRole's transaction.
unfoldable pub update_role_tx : String → String → String → ProjectMember → Body Db ProjectMember
update_role_tx project_id target_user_id new_role actor = do
  target ← on_error get_member_failed (get_project_member_for_update project_id target_user_id)
  fail_if (actor.role == role_admin && target.role == role_owner) (app requires_owner)
  if target.role == new_role then pure (db_member_to_domain target) else do
    if target.role == role_owner && not (new_role == role_owner)
        then keep_last_owner project_id "cannot demote the last project owner"
        else pure tt
    updated ←
        on_error (wrap "update member role")
          (update_project_member_role project_id target_user_id new_role)
    pure (db_member_to_domain updated)

-- What a transaction's outcome is to the caller.
abbrev pub app_result : {A : Type 0} → Result GoError A × Db → Result AppError A × Db
app_result (ok a, db) = (ok a, db)
app_result (err e, db) = (err (app_error_of e), db)

-- Steps 1 to 4: the checks on the request alone.
unfoldable pub check_update_role : String → String → ProjectMember → Option AppError
check_update_role target_user_id new_role actor =
    if not (role_known new_role)
    then some (bad_request "role must be one of: owner, admin, member")
    else if actor.user_id == target_user_id
    then some (bad_request "cannot change your own role")
    else if not (role_sufficient actor.role role_admin)
    then some (forbidden "requires admin role to update member roles")
    else if actor.role == role_admin && new_role == role_owner
    then some requires_owner
    else none

-- `if appErr != nil { return appErr }`
abbrev pub unless :
    {A : Type 0} → Option AppError → Db → Result AppError A × Db → Result AppError A × Db
unless (some e) db rest = (err e, db)
unless none db rest = rest

abbrev pub with_actor :
    {A : Type 0}
    → Result AppError ProjectMember
    → Db
    → (ProjectMember → Result AppError A × Db)
    → Result AppError A × Db
with_actor (err e) db rest = (err e, db)
with_actor (ok actor) db rest = rest actor

-- Checks 1 to 3 of Add.
unfoldable pub check_add : String → ProjectMember → Option AppError
check_add role actor =
    if not (role_known role)
    then some (bad_request "role must be one of: owner, admin, member")
    else if not (role_sufficient actor.role role_admin)
    then some (forbidden "requires admin role to add members")
    else if actor.role == role_admin && role == role_owner
    then some requires_owner
    else none

abbrev user_not_found : AppError
user_not_found = not_found "user not found"

abbrev get_user_failed : GoError → GoError
get_user_failed e = if is_no_rows e then app user_not_found else app err_internal

abbrev create_failed : GoError → GoError
create_failed e =
    if is_unique_violation e
    then app (conflict "user is already a member of this project")
    else app err_internal

-- Steps 4 and 5 of Add, which run outside a transaction: the target is an active user, and the
-- insert fails on a member that is already there. `parsed` is what dbconv.StringToPgUUID makes of
-- the actor's id (`false`: an error).
unfoldable pub add_steps : Bool → String → String → String → Body Db ProjectMember
add_steps parsed project_id target_user_id role = do
  active ← on_error get_user_failed (get_user_by_id target_user_id)
  fail_if (not active) (app user_not_found)
  fail_if (not parsed) (app err_internal)
  row ← on_error create_failed (create_project_member project_id target_user_id role)
  pure (db_member_to_domain row)

-- The callback of Remove's transaction.
unfoldable pub remove_tx : Bool → String → String → ProjectMember → Body Db (Unit {0})
remove_tx is_self_removal project_id target_user_id actor = do
  target ← on_error get_member_failed (get_project_member_for_update project_id target_user_id)
  fail_if (not is_self_removal && (actor.role == role_admin && target.role == role_owner))
      (app requires_owner)
  if target.role == role_owner
      then keep_last_owner project_id "cannot remove the last project owner"
      else pure tt
  on_error (wrap "delete member") (delete_project_member project_id target_user_id)

-- Non-self removal requires admin or owner.
unfoldable pub check_remove : Bool → ProjectMember → Option AppError
check_remove is_self_removal actor =
    if not is_self_removal && not (role_sufficient actor.role role_admin)
    then some (forbidden "requires admin role to remove other members")
    else none

module _ (server : Server) (project_id target_user_id : String) (actor : Option ProjectMember) where
  unfoldable pub update_role : String → Db → Result AppError ProjectMember × Db
  update_role new_role db = with_actor (validate_actor actor project_id) db λ a.
      unless (check_update_role target_user_id new_role a) db
        (app_result (with_tx server (update_role_tx project_id target_user_id new_role a) db))

  unfoldable pub add : (String → Bool) → String → Db → Result AppError ProjectMember × Db
  add parses role db = with_actor (validate_actor actor project_id) db λ a.
      unless (check_add role a) db (
        app_result
          (add_steps (parses a.user_id) project_id target_user_id role (server.query_fails 0) db))

  unfoldable pub remove : Db → Result AppError (Unit {0}) × Db
  remove db = with_actor (validate_actor actor project_id) db λ a.
      let is_self_removal = a.user_id == target_user_id in
      unless (check_remove is_self_removal a) db
        (app_result (with_tx server (remove_tx is_self_removal project_id target_user_id a) db))
