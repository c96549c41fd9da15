-- ===== src/Tasks/Changes.antt =====
-- LA5/server.c: what the operations of a client do to the queue, seen as two kinds of change.
use cnlab_cs.Common.{
  ℕ, ◌-◌, ◌≡◌, ◌⊎◌, refl, inl, inr, Bool, true, false, Option, none, some, List, arith, ltb,
  Bool-cases, Option-cases, get_elem?, set,
}
use cnlab_cs.Common.Arrays.{find?, index_of-some, find?-eq_none}
use cnlab_cs.Common.Pointwise.{Pointwise, Pointwise-map, Pointwise-refl, Pointwise-set}
use cnlab_cs.Tasks.Queue.{
  Task, is_pending, is_pending_of, is_free, check_all_completed, expire, check_task_timeouts,
  release_task, release_tasks, get_next_task_index, pending_index,
}
use cnlab_cs.Tasks.Handler.{
  Shared, Client, Effect, Event, Incoming, message, disconnected, would_block, recv_error, assign,
  complete, change_task, result_index, result_shared, on_get_task, on_result, Request, get_task,
  result, exits, other, request_of, respond, after_message, on_incoming, handle_round,
}

-- The task keeps its text, and stays completed if it was.
abbrev pub Stable : Task → Task → Type 0
Stable t u = (u.task ≡ t.task) × (t.completed ≡ true → u.completed ≡ true)

-- The task is as it was, or is nobody's work any more.
abbrev pub Weakens : Task → Task → Type 0
Weakens t u = (u ≡ t) ⊎ (is_pending u ≡ false)

-- One critical section of the client `pid`: tasks are put back or completed, or a free task is
-- handed to `pid`, which holds none.
pub data Change (pid : ℕ) (q r : List Task) : Type 0 where
  weakens : Pointwise Weakens q r → Pointwise Stable q r → Change pid q r
  takes :
      (i : ℕ) (t : Task) (now : ℕ)
      → get_elem? q i ≡ some t
      → is_free t ≡ true
      → find? (is_pending_of pid) q ≡ none
      → r ≡ set q i (assign pid now t)
      → Change pid q r

pub Stable-refl : (t : Task) → Stable t t
Stable-refl t = (refl, λ h. h)

Weakens-refl : (t : Task) → Weakens t t
Weakens-refl t = inl refl

pub unchanged : {pid : ℕ} (q : List Task) → Change pid q q
unchanged q = weakens (Pointwise-refl Weakens Weakens-refl q) (Pointwise-refl Stable Stable-refl q)

expire-Weakens : (now : ℕ) (t : Task) → Weakens t (expire now t)
unfolding expire
expire-Weakens now t = ground arith

expire-Stable : (now : ℕ) (t : Task) → Stable t (expire now t)
unfolding expire
expire-Stable now t = ground arith

pub check_task_timeouts-Weakens :
    (now : ℕ) (q : List Task)
    → Pointwise Weakens q (check_task_timeouts now q)
      × Pointwise Stable q (check_task_timeouts now q)
unfolding check_task_timeouts
check_task_timeouts-Weakens now q = (
  Pointwise-map Weakens (expire now) (expire-Weakens now) q,
  Pointwise-map Stable (expire now) (expire-Stable now) q,
)

pub check_task_timeouts-Change :
    (pid now : ℕ) (q : List Task) → Change pid q (check_task_timeouts now q)
check_task_timeouts-Change pid now q =
    weakens (check_task_timeouts-Weakens now q).0 (check_task_timeouts-Weakens now q).1

release_task-Weakens : (pid : ℕ) (t : Task) → Weakens t (release_task pid t)
unfolding release_task
release_task-Weakens pid t = ground arith

release_task-Stable : (pid : ℕ) (t : Task) → Stable t (release_task pid t)
unfolding release_task
release_task-Stable pid t = ground arith

pub release_tasks-Weakens :
    (pid : ℕ) (q : List Task)
    → Pointwise Weakens q (release_tasks pid q) × Pointwise Stable q (release_tasks pid q)
unfolding release_tasks
release_tasks-Weakens pid q = (
  Pointwise-map Weakens (release_task pid) (release_task-Weakens pid) q,
  Pointwise-map Stable (release_task pid) (release_task-Stable pid) q,
)

pub release_tasks-Change : (p pid : ℕ) (q : List Task) → Change p q (release_tasks pid q)
release_tasks-Change p pid q =
    weakens (release_tasks-Weakens pid q).0 (release_tasks-Weakens pid q).1

pub complete-Change : (pid : ℕ) (q : List Task) (i : ℕ) → Change pid q (change_task complete q i)
complete-Change pid q i =
    elim (get_elem? q i)
        as (λ o.
          get_elem? q i ≡ o → Change pid q (elim o [ none ↦ q | some t ↦ set q i (complete t) ])) [
            | none ↦ λ e. unchanged q
            | some t ↦ λ e.
                weakens (Pointwise-set Weakens Weakens-refl q i t (complete t) e (ground arith))
                  (Pointwise-set Stable Stable-refl q i t (complete t) e (refl, λ h. refl))
          ]
      refl

pub on_get_task-Change :
    (m : Shared) (pid now : ℕ) (send_ok : Bool)
    → Change pid m.task_queue (on_get_task m pid now send_ok).shared.task_queue
unfolding on_get_task pending_index get_next_task_index
on_get_task-Change m pid now send_ok = elim (Option-cases (pending_index pid m.task_queue)) [
  | inr (i, e) ↦ rw (e, on_get_task) (unchanged m.task_queue)
  | inl idle ↦ elim (Option-cases (get_next_task_index m.task_queue)) [
    | inl e ↦ rw (idle, on_get_task) (rw (e, on_get_task) (unchanged m.task_queue))
    | inr (j, e) ↦
        let (t, get, free, found, lt) = index_of-some is_free m.task_queue j e in
        rw (idle, on_get_task)
          (rw (e, on_get_task)
            (takes j t now get free (find?-eq_none (is_pending_of pid) m.task_queue idle)
              (rw (get, change_task))))
  ]
]

-- The flag of the control block is left alone, or every task is completed.
abbrev pub FlagStep : Shared → Shared → Type 0
FlagStep m n =
    (n.all_tasks_completed ≡ m.all_tasks_completed) ⊎ (check_all_completed n.task_queue ≡ true)

on_get_task-FlagStep :
    (m : Shared) (pid now : ℕ) (send_ok : Bool) → FlagStep m (on_get_task m pid now send_ok).shared
unfolding on_get_task
on_get_task-FlagStep m pid now send_ok = inl (ground arith)

pub on_result-Change :
    (m : Shared) (pid : ℕ) (task_index : Option ℕ)
    → Change pid m.task_queue (on_result m pid task_index).shared.task_queue
unfolding on_result
on_result-Change m pid task_index = result_shared-Change (result_index m pid task_index)
  where
    result_shared-Change : (o : Option ℕ) → Change pid m.task_queue (result_shared m o).task_queue
    result_shared-Change none = unchanged m.task_queue
    result_shared-Change (some i) = complete-Change pid m.task_queue i

result_shared-FlagStep : (m : Shared) (o : Option ℕ) → FlagStep m (result_shared m o)
result_shared-FlagStep m none = inl refl
result_shared-FlagStep m (some i) = ground arith

-- What every critical section of a client keeps, a whole round keeps.
module _ (P : Shared → Type 0) (c : Client)
    (keep : (m n : Shared)
      → Change c.pid m.task_queue n.task_queue
      → FlagStep m n
      → P m
      → P n) where
  respond-keeps :
      (r : Request) (m : Shared) (now : ℕ) (send_ok : Bool)
      → P m
      → P (respond r m c now send_ok).shared
  unfolding respond
  respond-keeps get_task m now send_ok h =
      keep m _ (on_get_task-Change m c.pid now send_ok) (on_get_task-FlagStep m c.pid now send_ok) h
  respond-keeps result m now send_ok h =
      keep m _ (on_result-Change m c.pid c.task_index)
        (unfold on_result in result_shared-FlagStep m (result_index m c.pid c.task_index)) h
  respond-keeps exits m now send_ok h =
      keep m _ (release_tasks-Change c.pid c.pid m.task_queue) (inl refl) h
  respond-keeps other m now send_ok h = h

  after_message-keeps : (e : Event) (f : Effect) → P f.shared → P (after_message c e f).shared
  unfolding after_message
  after_message-keeps e f h = elim (Bool-cases f.goes_on) [
    | inl on ↦
        rw (on, after_message)
          (keep f.shared _ (check_task_timeouts-Change c.pid e.check_now f.shared.task_queue)
            (inl refl) h)
    | inr off ↦ rw (off, after_message) h
  ]

  on_incoming-keeps : (m : Shared) (e : Event) (i : Incoming) → P m → P (on_incoming m c e i).shared
  unfolding on_incoming
  on_incoming-keeps m e would_block h = h
  on_incoming-keeps m e recv_error h = h
  on_incoming-keeps m e disconnected h =
      keep m _ (release_tasks-Change c.pid c.pid m.task_queue) (inl refl) h
  on_incoming-keeps m e (message buffer) h =
      after_message-keeps e (respond (request_of buffer) m c e.assign_now e.send_ok)
        (respond-keeps (request_of buffer) m e.assign_now e.send_ok h)

  pub handle_round-keeps : (m : Shared) (e : Event) → P m → P (handle_round m c e).shared
  unfolding handle_round
  handle_round-keeps m e h = elim (Bool-cases (ltb 60 (e.idle_now - c.last_activity))) [
    | inl idle ↦ rw (idle, handle_round) h
    | inr active ↦ rw (active, handle_round) (on_incoming-keeps m e e.incoming h)
  ]
