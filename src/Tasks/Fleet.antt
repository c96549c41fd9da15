-- ===== src/Tasks/Fleet.antt =====
-- LA5/server.c: what holds of the server and all its child processes at any moment.
use cnlab_cs.Common.{
  ℕ, ◌≡◌, ◌≢◌, refl, sym, ap, ◌∙◌, inl, inr, true, false, ◌&&◌, some, List, [], ◌∷◌, arith,
  Bool-cases, length, get_elem?, set, All, All-map, length-set,
}
use cnlab_cs.Common.Arrays.{erase_idx}
use cnlab_cs.Common.Keys.{length-erase_idx}
use cnlab_cs.Common.Int.{pos, incr, decr, is_zero, decr-incr}
use cnlab_cs.Common.Pointwise.{Pointwise}
use cnlab_cs.Tasks.Queue.{Task, is_pending, check_task_timeouts, release_task, release_tasks}
use cnlab_cs.Tasks.Handler.{
  Shared, Client, Event, expire_all, handle_round, on_incoming, after_message, message, would_block,
  recv_error, disconnected, Incoming,
}
use cnlab_cs.Tasks.Changes.{
  Stable, Weakens, weakens, handle_round-keeps, check_task_timeouts-Weakens, release_tasks-Weakens,
}
use cnlab_cs.Tasks.Ownership.{AtMostOne, Change-AtMostOne, FlagOk, Change-FlagOk}
use cnlab_cs.Tasks.Server.{
  Child, Server, setup_server, Accepted, no_connection, accept_error, fork_failed, forked,
  on_accept, main_round, child_round, reap, has_child, Step, main_loop, client, death, sigchld,
  Reach, here, next,
}
use cnlab_cs.Tasks.Children.{
  Owned, Owned-Weakens, Change-Owned, has_child-get, has_child-set, has_child-erase_idx,
}

pub record Inv (s : Server) : Type 0 where
  pub one_each : AtMostOne s.shared.task_queue
  pub owned : Owned s.children s.shared.task_queue
  pub counted : s.active_clients ≡ pos (length s.children)
  pub flag : FlagOk s.shared

on_incoming-pid :
    (m : Shared) (c : Client) (e : Event) (i : Incoming) → (on_incoming m c e i).client.pid ≡ c.pid
unfolding on_incoming after_message
on_incoming-pid m c e would_block = refl
on_incoming-pid m c e recv_error = refl
on_incoming-pid m c e disconnected = refl
on_incoming-pid m c e (message buffer) = refl

handle_round-pid : (m : Shared) (c : Client) (e : Event) → (handle_round m c e).client.pid ≡ c.pid
unfolding handle_round
handle_round-pid m c e = ground (arith, on_incoming-pid m c e e.incoming)

AtMostOne-idle : (q : List Task) → All (λ t. is_pending t ≡ false) q → AtMostOne q
AtMostOne-idle [] h = tt
AtMostOne-idle (t ∷ q) h = (λ p. absurd (ground arith), AtMostOne-idle q h.1)

pub setup_server-Inv :
    (tasks : List Task) → All (λ t. is_pending t ≡ false) tasks → Inv (setup_server tasks)
unfolding setup_server
setup_server-Inv tasks idle = record {
  one_each = AtMostOne-idle tasks idle;
  owned = All-map (λ t n p. absurd (ground arith)) tasks idle;
  counted = refl;
  flag = λ h. cc;
}

-- Tasks that are put back or completed.
shrink-Inv :
    (s : Server) (q : List Task)
    → Pointwise Weakens s.shared.task_queue q × Pointwise Stable s.shared.task_queue q
    → Inv s
    → Inv (record s { shared = record s.shared { task_queue = q } })
shrink-Inv s q w v = record {
  one_each = Change-AtMostOne 0 s.shared.task_queue q (weakens w.0 w.1) v.one_each;
  owned = Owned-Weakens s.children s.shared.task_queue q w.0 v.owned;
  counted = v.counted;
  flag =
      Change-FlagOk 0 s.shared (record s.shared { task_queue = q }) (weakens w.0 w.1) (inl refl)
        v.flag;
}

on_accept-Inv : (s : Server) (a : Accepted) → Inv s → Inv (on_accept s a)
unfolding on_accept
on_accept-Inv s no_connection v = v
on_accept-Inv s accept_error v = v
on_accept-Inv s fork_failed v = record {
  one_each = v.one_each;
  owned = v.owned;
  counted = decr-incr s.active_clients ∙ v.counted;
  flag = v.flag;
}
on_accept-Inv s (forked pid now) v = record {
  one_each = v.one_each;
  owned = All-map (λ t o p. ground (arith, o p)) s.shared.task_queue v.owned;
  counted = ap incr v.counted;
  flag = v.flag;
}

pub main_round-Inv : (s : Server) (now : ℕ) (a : Accepted) → Inv s → Inv (main_round s now a)
unfolding main_round
main_round-Inv s now a v =
    let q : List Task = check_task_timeouts now s.shared.task_queue in
    let t : Server = record s { shared = expire_all now s.shared } in
    let w : Inv t = shrink-Inv s q (check_task_timeouts-Weakens now s.shared.task_queue) v in
    elim (Bool-cases (t.shared.all_tasks_completed && is_zero t.active_clients)) [
      | inl over ↦
          rw (over, main_round)
            (record { one_each = w.one_each; owned = w.owned; counted = w.counted; flag = w.flag })
      | inr on ↦ rw (on, main_round) (on_accept-Inv t a w)
    ]

Owned-children :
    (cs ds : List Child) (q : List Task)
    → ((p : ℕ) → has_child p ds ≡ has_child p cs)
    → Owned cs q
    → Owned ds q
Owned-children cs ds q same = All-map (λ t o p. same t.assigned_to ∙ o p) q

replace-Inv :
    (s : Server) (i : ℕ) (ch ch' : Child)
    → get_elem? s.children i ≡ some ch
    → ch'.client.pid ≡ ch.client.pid
    → Inv s
    → Inv (record s { children = set s.children i ch' })
replace-Inv s i ch ch' get same v = record {
  one_each = v.one_each;
  owned =
      Owned-children s.children _ s.shared.task_queue
        (λ p. has_child-set p s.children i ch ch' get same) v.owned;
  counted = v.counted ∙ ap pos (sym (length-set s.children i ch'));
  flag = v.flag;
}

round_shared-Inv :
    (s : Server) (i : ℕ) (ch : Child) (e : Event)
    → get_elem? s.children i ≡ some ch
    → Inv s
    → Inv (record s { shared = (handle_round s.shared ch.client e).shared })
round_shared-Inv s i ch e get v =
    let after =
      handle_round-keeps (λ m. AtMostOne m.task_queue × Owned s.children m.task_queue × FlagOk m)
        ch.client
        (λ m n change flag h. (
          Change-AtMostOne ch.client.pid m.task_queue n.task_queue change h.0,
          Change-Owned s.children ch.client.pid m.task_queue n.task_queue
              (has_child-get s.children i ch get) change h.1,
          Change-FlagOk ch.client.pid m n change flag h.2,
        ))
        s.shared e (v.one_each, v.owned, v.flag) in
    record { one_each = after.0; owned = after.1; counted = v.counted; flag = after.2 }

child_round-Inv :
    (s : Server) (i : ℕ) (ch : Child) (e : Event)
    → get_elem? s.children i ≡ some ch
    → Inv s
    → Inv (child_round s i ch e)
unfolding child_round
child_round-Inv s i ch e get v =
    replace-Inv (record s { shared = (handle_round s.shared ch.client e).shared }) i ch _ get
      (handle_round-pid s.shared ch.client e) (round_shared-Inv s i ch e get v)

Owned-release :
    (cs ds : List Child) (z : ℕ) (q : List Task)
    → ((p : ℕ) → z ≢ p → has_child p cs ≡ true → has_child p ds ≡ true)
    → Owned cs q
    → Owned ds (release_tasks z q)
unfolding release_tasks
Owned-release cs ds z [] keep o = tt
Owned-release cs ds z (t ∷ q) keep o = (
  λ p.
      keep (release_task z t).assigned_to (unfold release_task in ground arith)
        (unfold release_task in ground (arith, o.0)),
  Owned-release cs ds z q keep o.1,
)

reap-Inv :
    (s : Server) (i : ℕ) (ch : Child) → get_elem? s.children i ≡ some ch → Inv s → Inv (reap s i ch)
unfolding reap
reap-Inv s i ch get v =
    let z = ch.client.pid in
    let w =
      shrink-Inv s (release_tasks z s.shared.task_queue)
        (release_tasks-Weakens z s.shared.task_queue) v in
    record {
      one_each = w.one_each;
      owned =
          Owned-release s.children (erase_idx s.children i) z s.shared.task_queue
            (λ p. has_child-erase_idx p s.children i ch get) v.owned;
      counted = ap decr (v.counted ∙ ap pos (length-erase_idx s.children i ch get));
      flag = w.flag;
    }

pub Step-Inv : {s t : Server} → Step s t → Inv s → Inv t
Step-Inv {s} (main_loop now a on fresh e) v = rw e (main_round-Inv s now a v)
Step-Inv {s} (client i ch ev get live e) v = rw e (child_round-Inv s i ch ev get v)
Step-Inv {s} (death i ch get e) v =
    rw e (replace-Inv s i ch (record ch { alive = false }) get refl v)
Step-Inv {s} (sigchld i ch get dead e) v = rw e (reap-Inv s i ch get v)

pub Reach-Inv : {s t : Server} → Reach s t → Inv s → Inv t
Reach-Inv here v = v
Reach-Inv (next r st) v = Step-Inv st (Reach-Inv r v)
