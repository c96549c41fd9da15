-- ===== src/Tasks/Ownership.antt =====
-- LA5/server.c: what every change of the queue keeps: a client holds at most one task that is not
-- completed, and the flag of the control block tells the truth.
use cnlab_cs.Common.{
  ℕ, zero, suc, ◌≡◌, refl, sym, ◌∙◌, inl, inr, true, none, some, List, [], ◌∷◌, arith, get_elem?,
  set,
}
use cnlab_cs.Common.Arrays.{find?, find?-set_other}
use cnlab_cs.Common.Pointwise.{Pointwise, Pointwise-set}
use cnlab_cs.Tasks.Queue.{Task, is_pending, is_pending_of, is_free, check_all_completed}
use cnlab_cs.Tasks.Handler.{Shared, assign}
use cnlab_cs.Tasks.Changes.{Stable, Weakens, Change, weakens, takes, FlagStep, Stable-refl}

-- No client holds two tasks that are not completed.
abbrev pub AtMostOne : List Task → Type 0
AtMostOne [] = Unit {0}
AtMostOne (t ∷ ts) =
    (is_pending t ≡ true → find? (is_pending_of t.assigned_to) ts ≡ none) × AtMostOne ts

find?-Weakens :
    (p : ℕ) (q r : List Task)
    → Pointwise Weakens q r
    → find? (is_pending_of p) q ≡ none
    → find? (is_pending_of p) r ≡ none
find?-Weakens p [] [] w h = refl
find?-Weakens p [] (u ∷ r) w h = absurd w
find?-Weakens p (t ∷ q) [] w h = refl
find?-Weakens p (t ∷ q) (u ∷ r) w h = ground (arith, w.0, find?-Weakens p q r w.1)

AtMostOne-Weakens : (q r : List Task) → Pointwise Weakens q r → AtMostOne q → AtMostOne r
AtMostOne-Weakens [] [] w a = tt
AtMostOne-Weakens [] (u ∷ r) w a = absurd w
AtMostOne-Weakens (t ∷ q) [] w a = tt
AtMostOne-Weakens (t ∷ q) (u ∷ r) w a = (
  λ h. find?-Weakens u.assigned_to q r w.1 (ground (arith, w.0, a.0)),
  AtMostOne-Weakens q r w.1 a.1,
)

AtMostOne-takes :
    (pid now : ℕ) (q : List Task) (i : ℕ) (t : Task)
    → get_elem? q i ≡ some t
    → is_free t ≡ true
    → find? (is_pending_of pid) q ≡ none
    → AtMostOne q
    → AtMostOne (set q i (assign pid now t))
AtMostOne-takes pid now [] i t e free idle a = tt
AtMostOne-takes pid now (x ∷ q) zero t e free idle a = (λ h. ground arith, a.1)
AtMostOne-takes pid now (x ∷ q) (suc i) t e free idle a = (
  λ h.
      find?-set_other (is_pending_of x.assigned_to) q i t (assign pid now t) e (ground arith)
        (ground arith)
      ∙ a.0 h,
  AtMostOne-takes pid now q i t e free (ground arith) a.1,
)

pub Change-AtMostOne : (pid : ℕ) (q r : List Task) → Change pid q r → AtMostOne q → AtMostOne r
Change-AtMostOne pid q r (weakens w s) a = AtMostOne-Weakens q r w a
Change-AtMostOne pid q r (takes i t now get free idle e) a =
    rw e (AtMostOne-takes pid now q i t get free idle a)

all_completed-Stable :
    (q r : List Task)
    → Pointwise Stable q r
    → check_all_completed q ≡ true
    → check_all_completed r ≡ true
unfolding check_all_completed
all_completed-Stable [] [] w h = refl
all_completed-Stable [] (u ∷ r) w h = absurd w
all_completed-Stable (t ∷ q) [] w h = refl
all_completed-Stable (t ∷ q) (u ∷ r) w h = ground (arith, w.0.1, all_completed-Stable q r w.1)

pub Change-Stable : (pid : ℕ) (q r : List Task) → Change pid q r → Pointwise Stable q r
Change-Stable pid q r (weakens w s) = s
Change-Stable pid q r (takes i t now get free idle e) =
    rw e (Pointwise-set Stable Stable-refl q i t (assign pid now t) get (refl, λ h. h))

-- The flag is up only while every task is completed.
abbrev pub FlagOk : Shared → Type 0
FlagOk m = m.all_tasks_completed ≡ true → check_all_completed m.task_queue ≡ true

pub Change-FlagOk :
    (pid : ℕ) (m n : Shared)
    → Change pid m.task_queue n.task_queue
    → FlagStep m n
    → FlagOk m
    → FlagOk n
Change-FlagOk pid m n ch (inl same) ok h =
    all_completed-Stable m.task_queue n.task_queue (Change-Stable pid m.task_queue n.task_queue ch)
      (ok (sym same ∙ h))
Change-FlagOk pid m n ch (inr every) ok h = every
