-- ===== src/Membership/Rows.antt =====
-- The tables project_members and users with the queries of datastore/postgres/sqlc/auth.sql.go that
-- the membership service makes.
--
-- A valid UUID stands for itself as its canonical text, so PgUUIDToString is the identity on it.
-- Generated ids and timestamps, which no rule reads, are left out. A query that the server refuses
-- (a broken connection, a missing foreign key) is an answer of `Server`.
use code_intelegence.Base.{
  ℕ, suc, String, Bool, false, ◌&&◌, Option, none, some, List, [], ◌∷◌, ◌++◌, ◌==◌, lookup,
  if◌then◌else◌,
}
use code_intelegence.Domain.Errors.{no_rows, unique_violation, ok, err}
use code_intelegence.Domain.Roles.{role_owner}
use code_intelegence.Postgres.Tx.{Body, query}

-- A row of project_members.
pub record MemberRow : Type 0 where
  pub project_id : String
  pub user_id : String
  pub role : String

-- users: the is_active column by user id.
pub record Db : Type 0 where
  pub members : List MemberRow
  pub users : List (String × Bool)

-- domain.ProjectMember
pub record ProjectMember : Type 0 where
  pub project_id : String
  pub user_id : String
  pub role : String

abbrev pub db_member_to_domain : MemberRow → ProjectMember
db_member_to_domain m = record { project_id = m.project_id; user_id = m.user_id; role = m.role }

-- WHERE project_id = $1 AND user_id = $2
abbrev pub matches : String → String → MemberRow → Bool
matches p u m = m.project_id == p && m.user_id == u

unfoldable pub find_row : String → String → List MemberRow → Option MemberRow
find_row p u [] = none
find_row p u (m ∷ ms) = if matches p u m then some m else find_row p u ms

unfoldable pub set_role : String → String → String → List MemberRow → List MemberRow
set_role p u r [] = []
set_role p u r (m ∷ ms) = (if matches p u m then record m { role = r } else m) ∷ set_role p u r ms

unfoldable pub drop_rows : String → String → List MemberRow → List MemberRow
drop_rows p u [] = []
drop_rows p u (m ∷ ms) = let rest = drop_rows p u ms in if matches p u m then rest else m ∷ rest

abbrev pub active_user : List (String × Bool) → String → Bool
active_user users u = elim (lookup u users) [ none ↦ false | some active ↦ active ]

-- JOIN users ON u.id = pm.user_id, WHERE project, role = 'owner' AND u.is_active
abbrev pub is_owner_row : List (String × Bool) → String → MemberRow → Bool
is_owner_row users p m = m.project_id == p && m.role == role_owner && active_user users m.user_id

unfoldable pub count_owner_rows : List (String × Bool) → String → List MemberRow → ℕ
count_owner_rows users p [] = 0
count_owner_rows users p (m ∷ ms) =
    let n = count_owner_rows users p ms in if is_owner_row users p m then suc n else n

-- pgx.ErrNoRows where a `:one` query finds no row.
abbrev pub one : {A : Type 0} → Option A → Body Db A
one none answers db = (err no_rows, db)
one (some a) answers db = (ok a, db)

abbrev pub get_project_member_for_update : String → String → Body Db MemberRow
get_project_member_for_update p u answers db =
    query "GetProjectMemberForUpdate" (λ s. one (find_row p u s.members) answers s) answers db

abbrev pub count_project_owners_for_update : String → Body Db ℕ
count_project_owners_for_update p =
    query "CountProjectOwnersForUpdate" (λ s. (ok (count_owner_rows s.users p s.members), s))

-- UPDATE ... RETURNING
abbrev pub update_project_member_role : String → String → String → Body Db MemberRow
update_project_member_role p u r answers db =
    query "UpdateProjectMemberRole"
      (λ s.
        one (find_row p u (set_role p u r s.members)) answers
          (record s { members = set_role p u r s.members }))
      answers db

abbrev pub delete_project_member : String → String → Body Db (Unit {0})
delete_project_member p u =
    query "DeleteProjectMember" (λ s. (ok tt, record s { members = drop_rows p u s.members }))

-- UNIQUE (project_id, user_id)
abbrev insert_member : MemberRow → Option MemberRow → Body Db MemberRow
insert_member m (some old) answers db = (err unique_violation, db)
insert_member m none answers db = (ok m, record db { members = db.members ++ m ∷ [] })

abbrev pub create_project_member : String → String → String → Body Db MemberRow
create_project_member p u r answers db =
    query "CreateProjectMember"
      (λ s.
        insert_member (record { project_id = p; user_id = u; role = r }) (find_row p u s.members)
          answers s)
      answers db

-- GetUserByID, of which the service reads is_active
abbrev pub get_user_by_id : String → Body Db Bool
get_user_by_id u answers db = query "GetUserByID" (λ s. one (lookup u s.users) answers s) answers db
