-- ===== src/Membership/Counts.antt =====
-- Lemmas on the rows of project_members: keys stay unique, and how the owner counts move.
use code_intelegence.Base.{
  suc, eq_refl, ◌≤◌, String, ◌≡◌, ◌≢◌, refl, Bool, true, false, Option, none, some, List, [], ◌∷◌,
  ◌++◌, arith, eq_iff, Bool-cases, inl, inr, ◌⊎◌,
}
use code_intelegence.Domain.Roles.{role_owner}
use code_intelegence.Membership.Rows.{
  MemberRow, matches, find_row, set_role, drop_rows, is_owner_row, count_owner_rows,
}

-- UNIQUE (project_id, user_id)
abbrev pub Unique : List MemberRow → Type 0
Unique [] = Unit
Unique (m ∷ ms) = (find_row m.project_id m.user_id ms ≡ none) × Unique ms

-- A row that a key finds has that key.
pub find_row-matches :
    (p u : String) (ms : List MemberRow) (t : MemberRow)
    → find_row p u ms ≡ some t
    → (t.project_id ≡ p) × (t.user_id ≡ u)
unfolding find_row
find_row-matches p u [] t h = cc
find_row-matches p u (m ∷ ms) t h =
    ground (arith, eq_iff m.project_id p, eq_iff m.user_id u, find_row-matches p u ms t)

set_role-absent :
    (p u r : String) (ms : List MemberRow) → find_row p u ms ≡ none → set_role p u r ms ≡ ms
unfolding set_role find_row
set_role-absent p u r [] h = refl
set_role-absent p u r (m ∷ ms) h = ground (arith, set_role-absent p u r ms)

drop_rows-absent :
    (p u : String) (ms : List MemberRow) → find_row p u ms ≡ none → drop_rows p u ms ≡ ms
unfolding drop_rows find_row
drop_rows-absent p u [] h = refl
drop_rows-absent p u (m ∷ ms) h = ground (arith, drop_rows-absent p u ms)

-- The rows that a key does not find keep their absence.
pub find_row-set_role-none :
    (p u r q v : String) (ms : List MemberRow)
    → find_row q v ms ≡ none
    → find_row q v (set_role p u r ms) ≡ none
unfolding set_role find_row
find_row-set_role-none p u r q v [] h = refl
find_row-set_role-none p u r q v (m ∷ ms) h = ground (arith, find_row-set_role-none p u r q v ms)

pub find_row-drop_rows-none :
    (p u q v : String) (ms : List MemberRow)
    → find_row q v ms ≡ none
    → find_row q v (drop_rows p u ms) ≡ none
unfolding drop_rows find_row
find_row-drop_rows-none p u q v [] h = refl
find_row-drop_rows-none p u q v (m ∷ ms) h = ground (arith, find_row-drop_rows-none p u q v ms)

pub set_role-Unique :
    (p u r : String) (ms : List MemberRow) → Unique ms → Unique (set_role p u r ms)
unfolding set_role
set_role-Unique p u r [] h = tt
set_role-Unique p u r (m ∷ ms) h = elim (Bool-cases (matches p u m)) [
  | inl e ↦
      rw e
        (find_row-set_role-none p u r m.project_id m.user_id ms h.0, set_role-Unique p u r ms h.1)
  | inr e ↦
      rw e
        (find_row-set_role-none p u r m.project_id m.user_id ms h.0, set_role-Unique p u r ms h.1)
]

pub drop_rows-Unique : (p u : String) (ms : List MemberRow) → Unique ms → Unique (drop_rows p u ms)
unfolding drop_rows
drop_rows-Unique p u [] h = tt
drop_rows-Unique p u (m ∷ ms) h = elim (Bool-cases (matches p u m)) [
  | inl e ↦ rw e (drop_rows-Unique p u ms h.1)
  | inr e ↦
      rw e (find_row-drop_rows-none p u m.project_id m.user_id ms h.0, drop_rows-Unique p u ms h.1)
]

find_row-append_none :
    (p u : String) (ms : List MemberRow) (m : MemberRow)
    → find_row p u ms ≡ none
    → matches p u m ≡ false
    → find_row p u (ms ++ m ∷ []) ≡ none
unfolding find_row
find_row-append_none p u [] m h e = rw e
find_row-append_none p u (x ∷ ms) m h e = ground (arith, find_row-append_none p u ms m)

pub append-Unique :
    (ms : List MemberRow) (m : MemberRow)
    → find_row m.project_id m.user_id ms ≡ none
    → Unique ms
    → Unique (ms ++ m ∷ [])
unfolding find_row
append-Unique [] m h u = (refl, tt)
append-Unique (x ∷ ms) m h u = (
  find_row-append_none x.project_id x.user_id ms m u.0 (
      ground (
        arith,
        eq_iff x.project_id m.project_id,
        eq_iff x.user_id m.user_id,
        eq_iff m.project_id x.project_id,
        eq_iff m.user_id x.user_id,
      )),
  append-Unique ms m (ground arith) u.1,
)

-- The rows below a row with the key are left alone.
rest_absent :
    (p u : String) (m : MemberRow) (ms : List MemberRow)
    → Unique (m ∷ ms)
    → matches p u m ≡ true
    → find_row p u ms ≡ none
rest_absent p u m ms h e = ground (arith, eq_iff m.project_id p, eq_iff m.user_id u)

module _ (users : List (String × Bool)) (q p u : String) where
  -- A change to the rows of one key moves the owner counts by at most one, since keys are unique.
  pub count-set_role :
      (r : String) (ms : List MemberRow)
      → Unique ms
      → count_owner_rows users q ms ≤ suc (count_owner_rows users q (set_role p u r ms))
  unfolding count_owner_rows set_role
  count-set_role r [] h = omega arith
  count-set_role r (m ∷ ms) h = elim (Bool-cases (matches p u m)) [
    | inl e ↦ rw (e, set_role-absent p u r ms (rest_absent p u m ms h e)) (ground arith)
    | inr e ↦ rw e (ground (arith, count-set_role r ms h.1))
  ]

  pub count-drop_rows :
      (ms : List MemberRow)
      → Unique ms
      → count_owner_rows users q ms ≤ suc (count_owner_rows users q (drop_rows p u ms))
  unfolding count_owner_rows drop_rows
  count-drop_rows [] h = omega arith
  count-drop_rows (m ∷ ms) h = elim (Bool-cases (matches p u m)) [
    | inl e ↦ rw (e, drop_rows-absent p u ms (rest_absent p u m ms h e)) (ground arith)
    | inr e ↦ rw e (ground (arith, count-drop_rows ms h.1))
  ]

  -- Where the key's row is no owner's, or stands in another project, no owner is lost.
  abbrev pub Spared : Option MemberRow → Type 0
  Spared none = Unit
  Spared (some t) = (t.role ≢ role_owner) ⊎ (t.project_id ≢ q)

  Spared-row : (m : MemberRow) → Spared (some m) → is_owner_row users q m ≡ false
  Spared-row m k = ground (arith, eq_iff m.role role_owner, eq_iff m.project_id q)

  pub count-set_role-Spared :
      (r : String) (ms : List MemberRow)
      → Unique ms
      → Spared (find_row p u ms)
      → count_owner_rows users q ms ≤ count_owner_rows users q (set_role p u r ms)
  unfolding count_owner_rows set_role find_row
  count-set_role-Spared r [] h k = omega arith
  count-set_role-Spared r (m ∷ ms) h k = elim (Bool-cases (matches p u m)) [
    | inl e ↦
        rw (e, set_role-absent p u r ms (rest_absent p u m ms h e))
          (rw (Spared-row m (rw e at k)) (ground arith))
    | inr e ↦ rw e (ground (arith, count-set_role-Spared r ms h.1 (rw e at k)))
  ]

  pub count-drop_rows-Spared :
      (ms : List MemberRow)
      → Unique ms
      → Spared (find_row p u ms)
      → count_owner_rows users q ms ≤ count_owner_rows users q (drop_rows p u ms)
  unfolding count_owner_rows drop_rows find_row
  count-drop_rows-Spared [] h k = omega arith
  count-drop_rows-Spared (m ∷ ms) h k = elim (Bool-cases (matches p u m)) [
    | inl e ↦
        rw (e, drop_rows-absent p u ms (rest_absent p u m ms h e))
          (rw (Spared-row m (rw e at k)) (omega arith))
    | inr e ↦ rw e (ground (arith, count-drop_rows-Spared ms h.1 (rw e at k)))
  ]

  -- To make an owner of a member loses none.
  pub count-promote :
      (ms : List MemberRow)
      → count_owner_rows users q ms ≤ count_owner_rows users q (set_role p u role_owner ms)
  unfolding count_owner_rows set_role
  count-promote [] = omega arith
  count-promote (m ∷ ms) = elim (Bool-cases (matches p u m)) [
    | inl e ↦ rw e (ground (arith, count-promote ms, eq_refl role_owner))
    | inr e ↦ rw e (ground (arith, count-promote ms))
  ]

  pub count-append :
      (m : MemberRow) (ms : List MemberRow)
      → count_owner_rows users q ms ≤ count_owner_rows users q (ms ++ m ∷ [])
  unfolding count_owner_rows
  count-append m [] = omega arith
  count-append m (x ∷ ms) = ground (arith, count-append m ms)
