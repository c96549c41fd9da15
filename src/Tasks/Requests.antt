-- ===== src/Tasks/Requests.antt =====
-- LA5/server.c: what a client gets for GET_TASK, RESULT and a release, and what a timeout does.
use cnlab_cs.Common.{
  ℕ, zero, suc, false, ◌&&◌, not, ap, ◌∙◌, ◌≢◌, ◌-◌, ◌≡◌, ◌⊎◌, refl, inl, inr, Bool, true, none,
  some, List, [], ◌∷◌, arith, ltb, ◌==◌, if◌then◌else◌, Bool-cases, Option-cases, get_elem?, set,
}
use cnlab_cs.Common.Arrays.{index_of, find?, index_of-some, index_of-eq_none, find?-eq_none}
use cnlab_cs.Common.Pointwise.{Pointwise, Pointwise-map}
use cnlab_cs.Common.Keys.{get_elem?-set_other, find?-set_new, get_elem?-set_self}
use cnlab_cs.Tasks.Queue.{
  Task, is_pending, is_pending_of, is_free, expire, check_task_timeouts, release_task,
  release_tasks, get_next_task_index, pending_index, timeout_seconds,
}
use cnlab_cs.Tasks.Handler.{
  Shared, Effect, task_reply, no_tasks, assign, complete, change_task, on_get_task, on_result,
  result_index,
}

-- The three answers to GET_TASK. A client that holds a task gets it once more, and nothing changes.
-- Otherwise the first free task is assigned to it, with the time, and sent. If there is none, it is
-- told so and nothing changes. After either of the first two the client holds what was sent.
pub data Answer (m : Shared) (pid now : ℕ) (f : Effect) : Type 0 where
  resent :
      (t : Task)
      → find? (is_pending_of pid) m.task_queue ≡ some t
      → f.reply ≡ some (task_reply t.task)
      → f.shared ≡ m
      → Answer m pid now f
  handed_out :
      (i : ℕ) (t : Task)
      → find? (is_pending_of pid) m.task_queue ≡ none
      → find? is_free m.task_queue ≡ some t
      → f.reply ≡ some (task_reply t.task)
      → f.shared ≡ record m { task_queue = set m.task_queue i (assign pid now t) }
      → find? (is_pending_of pid) f.shared.task_queue ≡ some (assign pid now t)
      → Answer m pid now f
  refused :
      find? (is_pending_of pid) m.task_queue ≡ none
      → find? is_free m.task_queue ≡ none
      → f.reply ≡ some no_tasks
      → f.shared ≡ m
      → Answer m pid now f

pub on_get_task-Answer :
    (m : Shared) (pid now : ℕ) (send_ok : Bool) → Answer m pid now (on_get_task m pid now send_ok)
unfolding on_get_task pending_index get_next_task_index
on_get_task-Answer m pid now send_ok = elim (Option-cases (pending_index pid m.task_queue)) [
  | inr (i, e) ↦
      let (t, get, test, found, lt) = index_of-some (is_pending_of pid) m.task_queue i e in
      rw (e, on_get_task) (resent t found (ground arith) refl)
  | inl idle ↦
      let none_held = find?-eq_none (is_pending_of pid) m.task_queue idle in
      elim (Option-cases (get_next_task_index m.task_queue)) [
        | inl e ↦
            rw (idle, on_get_task)
              (rw (e, on_get_task)
                (refused none_held (find?-eq_none is_free m.task_queue e) refl refl))
        | inr (j, e) ↦
            let (t, get, free, found, lt) = index_of-some is_free m.task_queue j e in
            rw (idle, on_get_task)
              (rw (e, on_get_task)
                (handed_out j t none_held found (ground arith) (rw (get, change_task)) (
                  rw (get, change_task)
                    (find?-set_new (is_pending_of pid) m.task_queue j t (assign pid now t) none_held
                      get (ground arith)))))
      ]
]

-- The task that the local index names, when the client holds none.
on_result_idle :
    (m : Shared) (pid i : ℕ) (t : Task)
    → find? (is_pending_of pid) m.task_queue ≡ none
    → get_elem? m.task_queue i ≡ some t
    → (on_result m pid (some i)).shared.task_queue ≡ set m.task_queue i (complete t)
unfolding on_result pending_index
on_result_idle m pid i t idle get =
    let alone : pending_index pid m.task_queue ≡ none =
      index_of-eq_none (is_pending_of pid) m.task_queue idle in
    rw (alone, result_index) (rw (get, change_task))

find?-eq_none-of :
    (f : Task → Bool) (q : List Task)
    → ((j : ℕ) (u : Task) → get_elem? q j ≡ some u → f u ≡ true → ⊥)
    → find? f q ≡ none
find?-eq_none-of f [] h = refl
find?-eq_none-of f (t ∷ q) h = elim (Bool-cases (f t)) [
  | inl hit ↦ absurd (h 0 t refl hit)
  | inr miss ↦ rw miss (find?-eq_none-of f q (λ j u. h (suc j) u))
]

find?-set_only :
    (f : Task → Bool) (q : List Task) (i : ℕ) (t v : Task)
    → get_elem? q i ≡ some t
    → f v ≡ false
    → ((j : ℕ) (u : Task) → get_elem? q j ≡ some u → f u ≡ true → j ≡ i)
    → find? f (set q i v) ≡ none
find?-set_only f [] i t v e miss only = cc
find?-set_only f (x ∷ q) zero t v e miss only =
    rw miss (find?-eq_none-of f q (λ j u g hit. absurd (suc-zero j (only (suc j) u g hit))))
  where
    suc-zero : (j : ℕ) → suc j ≡ 0 → ⊥
    suc-zero j e = omega (arith, e)
find?-set_only f (x ∷ q) (suc i) t v e miss only = elim (Bool-cases (f x)) [
  | inl hit ↦ absurd (zero-suc (only 0 x refl hit))
  | inr other ↦
      rw other (find?-set_only f q i t v e miss (λ j u g hit. pred (only (suc j) u g hit)))
]
  where
    zero-suc : 0 ≡ suc i → ⊥
    zero-suc e = omega (arith, e)

    pred : {j : ℕ} → suc j ≡ suc i → j ≡ i
    pred e = omega (arith, e)

-- A client that holds no task any more, but whose local index still names one that another client holds by
-- now, and no more than this one: its RESULT completes the task, so that the other client holds nothing.
-- The text of the task and who it is assigned to stay, and so do all other tasks.
pub on_result-stale :
    (m : Shared) (pid p i : ℕ) (t : Task)
    → find? (is_pending_of pid) m.task_queue ≡ none
    → get_elem? m.task_queue i ≡ some t
    → is_pending_of p t ≡ true
    → ((j : ℕ) (u : Task) → get_elem? m.task_queue j ≡ some u → is_pending_of p u ≡ true → j ≡ i)
    → (find? (is_pending_of p) (on_result m pid (some i)).shared.task_queue ≡ none)
      × (get_elem? (on_result m pid (some i)).shared.task_queue i
          ≡ some (record {
            task = t.task;
            assigned = true;
            completed = true;
            assigned_to = p;
            assignment_time = t.assignment_time;
          }))
      × ((j : ℕ)
          → j ≢ i
          → get_elem? (on_result m pid (some i)).shared.task_queue j ≡ get_elem? m.task_queue j)
on_result-stale m pid p i t idle get held only =
    let after = on_result_idle m pid i t idle get in
    (
      rw after
          (find?-set_only (is_pending_of p) m.task_queue i t (complete t) get (ground arith) only),
      rw after (get_elem?-set_self m.task_queue i t (complete t) get ∙ ap some (ground arith)),
      λ j other. rw after (get_elem?-set_other m.task_queue i j (complete t) other),
    )

-- After a release the client holds nothing, and every other client holds what it held.
pub release_tasks_holds :
    (pid p : ℕ) (q : List Task)
    → find? (is_pending_of p) (release_tasks pid q)
      ≡ (if pid == p then none else find? (is_pending_of p) q)
unfolding release_tasks release_task
release_tasks_holds pid p [] = ground arith
release_tasks_holds pid p (t ∷ q) = ground (arith, release_tasks_holds pid p q)

-- `now - assignment_time > TIMEOUT_SECONDS` for a task that somebody holds.
abbrev pub is_late : ℕ → Task → Bool
is_late now t = is_pending t && ltb timeout_seconds (now - t.assignment_time)

-- What an entry becomes.
abbrev pub Expires : ℕ → Task → Task → Type 0
Expires now t u =
    ((u ≡ t) × (is_late now t ≡ false))
    ⊎ ((u ≡ record {
      task = t.task;
      assigned = false;
      completed = false;
      assigned_to = 0;
      assignment_time = t.assignment_time;
    })
        × (is_late now t ≡ true))

expire-Expires : (now : ℕ) (t : Task) → Expires now t (expire now t)
unfolding expire
expire-Expires now t = elim (Bool-cases (is_pending t)) [
  | inr idle ↦ inl (ground arith, ground arith)
  | inl held ↦ elim (Bool-cases (ltb timeout_seconds (now - t.assignment_time))) [
    | inl late ↦ inr (ground arith, ground arith)
    | inr recent ↦ inl (ground arith, ground arith)
  ]
]

check_task_timeouts-holds :
    (now p : ℕ) (q : List Task)
    → find? (is_pending_of p) (check_task_timeouts now q)
      ≡ find? (λ t. is_pending_of p t && not (is_late now t)) q
unfolding check_task_timeouts expire
check_task_timeouts-holds now p [] = refl
check_task_timeouts-holds now p (t ∷ q) = ground (arith, check_task_timeouts-holds now p q)

check_task_timeouts-next :
    (now : ℕ) (q : List Task)
    → get_next_task_index (check_task_timeouts now q)
      ≡ index_of (λ t. if is_late now t then true else is_free t) q
unfolding check_task_timeouts expire get_next_task_index index_of
check_task_timeouts-next now [] = refl
check_task_timeouts-next now (t ∷ q) = ground (arith, check_task_timeouts-next now q)

-- A task that somebody has held for more than 30 seconds is put back, with its text and no holder, and every
-- other entry stays. So each client holds after it the first of its tasks that are not late, and the
-- next task to be handed out is the first that was free or late.
pub check_task_timeouts-Expires :
    (now : ℕ) (q : List Task)
    → Pointwise (Expires now) q (check_task_timeouts now q)
      × ((p : ℕ)
          → find? (is_pending_of p) (check_task_timeouts now q)
            ≡ find? (λ t. is_pending_of p t && not (is_late now t)) q)
      × (get_next_task_index (check_task_timeouts now q)
          ≡ index_of (λ t. if is_late now t then true else is_free t) q)
unfolding check_task_timeouts
check_task_timeouts-Expires now q = (
  Pointwise-map (Expires now) (expire now) (expire-Expires now) q,
  λ p. check_task_timeouts-holds now p q,
  check_task_timeouts-next now q,
)
