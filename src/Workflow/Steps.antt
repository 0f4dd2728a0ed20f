-- ===== src/Workflow/Steps.antt =====
-- The state that a workflow run changes, and a sequence of calls that stops at the first error.
pub mod Laws
use code_intelegence.Base.{String, List, ℕ, Bool, true, false}
use code_intelegence.Domain.Errors.{Result, ok, err}
use code_intelegence.Jobs.Table.{Jobs}
use code_intelegence.Jobs.Snapshots.{Snapshots}

-- A row of the table `files`; the artifacts of a file are deleted with its row.
pub record FileRow : Type 0 where
  pub index_snapshot_id : String
  pub file_path : String

-- vectorstore.Point: the vector is a list of the bits of its numbers.
pub record Point : Type 0 where
  pub id : String
  pub vector : List ℕ
  pub index_snapshot_id : String
  pub file_path : String

-- The tables indexing_jobs, index_snapshots and files, and the points of the vector collection.
pub record World : Type 0 where
  pub jobs : Jobs
  pub snapshots : Snapshots
  pub files : List FileRow
  pub points : List Point

abbrev pub Step : Type 0 → Type 0 → Type 0
Step E A = World → Result E A × World

module _ {E : Type 0} where
  abbrev pub pure : {A : Type 0} → A → Step E A
  pure a w = (ok a, w)

  abbrev pub continue : {A B : Type 0} → Result E A × World → (A → Step E B) → Result E B × World
  continue (ok a, w) f = f a w
  continue (err e, w) f = (err e, w)

  infixl 5 ◌>>=◌ ◌>>◌
  unfoldable pub ◌>>=◌ : {A B : Type 0} → Step E A → (A → Step E B) → Step E B
  (m >>= f) w = continue (m w) f

  unfoldable pub ◌>>◌ : {A B : Type 0} → Step E A → Step E B → Step E B
  (m >> n) w = continue (m w) (λ _. n)

  abbrev pub recast : {F A : Type 0} → (F → E) → Result F A × World → Result E A × World
  recast f (ok a, w) = (ok a, w)
  recast f (err e, w) = (err (f e), w)

  -- `if err != nil { return f(err) }`, with an error type of its own
  unfoldable pub fails_as : {F A : Type 0} → (F → E) → Step F A → Step E A
  fails_as f m w = recast f (m w)

  -- `if test { m }`
  unfoldable pub when : Bool → Step E (Unit {0}) → Step E (Unit {0})
  when true m = m
  when false m = pure tt
