-- ===== src/ApiServer/JobRuntime/Steps.antt =====
-- The runs of the job runtime: the calls of `spawn` and `cancel` and the steps of the tasks, in any
-- order.
use miya_api.Prelude.{◌<◌, ◌≡◌, String, List, ◌∷◌, ◌++◌}
use miya_api.ApiServer.JobRuntime.{
  Phase, registered, waiting, working, done, unpublished, Task, JobRuntime, register, publish,
  start, finish, unpublish, leave, cancel,
}

-- The task `t` stands between the tasks `front` and `back`, in the given phase.
abbrev pub At : List Task → Task → List Task → Phase → JobRuntime → Type 0
At front t back phase s = (s.tasks ≡ front ++ (t ∷ back)) × (t.phase ≡ phase)

pub data Step (s : JobRuntime) : JobRuntime → Type 0 where
  spawn_called : (key : String) → Step s (register key s).1
  published :
      (front : List Task) (t : Task) (back : List Task)
      → At front t back registered s
      → Step s (publish front t back s)
  started :
      (front : List Task) (t : Task) (back : List Task)
      → At front t back waiting s
      → 0 < s.permits
      → Step s (start front t back s)
  finished :
      (front : List Task) (t : Task) (back : List Task)
      → At front t back working s
      → Step s (finish front t back s)
  removed :
      (front : List Task) (t : Task) (back : List Task)
      → At front t back done s
      → Step s (unpublish front t back s)
  left :
      (front : List Task) (t : Task) (back : List Task)
      → At front t back unpublished s
      → Step s (leave front t back s)
  cancel_called : (key : String) → Step s (cancel key s).1

pub data Reach (s : JobRuntime) : JobRuntime → Type 0 where
  here : Reach s s
  next : {t u : JobRuntime} → Reach s t → Step t u → Reach s u
