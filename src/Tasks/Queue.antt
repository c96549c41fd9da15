-- ===== src/Tasks/Queue.antt =====
-- LA5/server.c: the shared task queue and the loops over it. `task_queue` is the list of its first
-- `task_count` entries; the count never changes after `load_tasks`.
use cnlab_cs.Common.{
  ℕ, zero, suc, ◌-◌, Bool, true, false, ◌&&◌, not, Option, none, some, List, [], ◌∷◌, map, ltb,
  ◌==◌, if◌then◌else◌,
}
use cnlab_cs.Common.Arrays.{index_of}
use cnlab_cs.Common.Bytes.{c_str, newline, fgets}

abbrev pub max_tasks : ℕ
max_tasks = 100

abbrev pub max_task_length : ℕ
max_task_length = 50

abbrev pub timeout_seconds : ℕ
timeout_seconds = 30

pub record Task : Type 0 where
  pub task : List ℕ
  pub assigned : Bool
  pub completed : Bool
  pub assigned_to : ℕ
  pub assignment_time : ℕ

-- `assigned && !completed`
abbrev pub is_pending : Task → Bool
is_pending t = t.assigned && not t.completed

-- `assigned && assigned_to == pid && !completed`
abbrev pub is_pending_of : ℕ → Task → Bool
is_pending_of pid t = t.assigned && t.assigned_to == pid && not t.completed

-- `!assigned && !completed`
abbrev pub is_free : Task → Bool
is_free t = not t.assigned && not t.completed

abbrev pub put_back : Task → Task
put_back t = record t { assigned = false; assigned_to = 0 }

unfoldable pub check_all_completed : List Task → Bool
check_all_completed [] = true
check_all_completed (t ∷ ts) = if not t.completed then false else check_all_completed ts

-- The body of the loop: a difference of times below 0 is no timeout, as with `-` on ℕ.
unfoldable pub expire : ℕ → Task → Task
expire now t =
    if t.assigned && not t.completed
    then (if ltb timeout_seconds (now - t.assignment_time) then put_back t else t)
    else t

unfoldable pub check_task_timeouts : ℕ → List Task → List Task
unfolding expire
check_task_timeouts now = map (expire now)

-- The loop that gives back what a client holds: on its end, on `exit` and in the SIGCHLD handler.
unfoldable pub release_task : ℕ → Task → Task
release_task pid t = if is_pending_of pid t then put_back t else t

unfoldable pub release_tasks : ℕ → List Task → List Task
unfolding release_task
release_tasks pid = map (release_task pid)

-- `none` is -1.
unfoldable pub get_next_task_index : List Task → Option ℕ
unfolding index_of
get_next_task_index q = index_of is_free q

unfoldable pub pending_index : ℕ → List Task → Option ℕ
unfolding index_of
pending_index pid q = index_of (is_pending_of pid) q

-- The newline at the end of a line is cut off.
unfoldable pub strip_newline : List ℕ → List ℕ
strip_newline [] = []
strip_newline (c ∷ []) = if c == newline then [] else c ∷ []
strip_newline (c ∷ d ∷ s) = c ∷ strip_newline (d ∷ s)

abbrev pub new_task : List ℕ → Task
new_task line = record {
  task = line;
  assigned = false;
  completed = false;
  assigned_to = 0;
  assignment_time = 0;
}

-- The reading loop with `left` tasks to the limit; a line longer than the array is cut in pieces.
unfoldable pub load_loop : ℕ → List ℕ → List Task
unfolding fgets strip_newline
load_loop zero file = []
load_loop (suc left) file = elim (fgets max_task_length file) [
  | none ↦ []
  | some (line, rest) ↦ new_task (strip_newline (c_str line)) ∷ load_loop left rest
]

-- `none` is the file that cannot be opened, for which the function returns -1.
unfoldable pub load_tasks : Option (List ℕ) → Option (List Task)
unfolding load_loop
load_tasks none = none
load_tasks (some file) = some (load_loop max_tasks file)
