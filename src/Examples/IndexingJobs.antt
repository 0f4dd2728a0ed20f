-- ===== src/Examples/IndexingJobs.antt =====
-- A job from its creation on: two workers claim it, one completes it, and a reaper comes late.
use code_intelegence.Base.{◌≤◌, ◌≡◌, refl, true, none, some, ◌⊎◌, List, [], ◌∷◌, lookup, insert}
use code_intelegence.Jobs.Table.{Jobs, JobStatus, queued, running, completed, failed}
use code_intelegence.Jobs.Lifecycle.{
  Op, create, claim, complete, progress, reap, abandon, step, run, Moves, status_of, step-Moves,
  is_finished, any_abandons, run-finished,
}
use code_intelegence.Jobs.Once.{claims, finishes, total, claimed_and_finished_once}

abbrev ops : List Op
ops =
    create "p" "full-index" "j"
    ∷ claim none 5 "j" "w1"
    ∷ claim none 6 "j" "w2"
    ∷ progress none "j" 3 9 0
    ∷ complete none 8 "j"
    ∷ reap 9 "j" "late"
    ∷ []

claimed_and_finished_once_example :
    (total (claims "j") ops [] ≤ 1) × (total (finishes "j") ops [] ≤ 1)
claimed_and_finished_once_example = claimed_and_finished_once "j" ops []

step-Moves_example :
    Moves true
      (status_of "j" (run ops []))
      (status_of "j" (step (abandon none 10 "j" "late") (run ops [])))
step-Moves_example = step-Moves (abandon none 10 "j" "late") (run ops []) "j"

done : is_finished (status_of "j" (run ops [])) ≡ true
unfolding lookup run code_intelegence.Jobs.Table.update_from code_intelegence.Jobs.Table.update_any
    insert
done = refl

-- The API abandons the completed job.
abbrev left : List Op
left = claim none 9 "j" "w3" ∷ abandon none 10 "j" "enqueue" ∷ []

run-finished_example :
    (status_of "j" (run left (run ops [])) ≡ status_of "j" (run ops []))
    ⊎ (any_abandons "j" left ≡ true) × (status_of "j" (run left (run ops [])) ≡ some failed)
run-finished_example = run-finished left (run ops []) "j" done
