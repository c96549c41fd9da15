-- ===== src/Tasks/Children.antt =====
-- LA5/server.c: the children of the main process, and the tasks that they hold.
use cnlab_cs.Common.{
  ℕ, zero, suc, ◌≡◌, ◌≢◌, refl, true, some, List, [], ◌∷◌, arith, get_elem?, set, All,
}
use cnlab_cs.Common.Arrays.{erase_idx}
use cnlab_cs.Common.Pointwise.{Pointwise}
use cnlab_cs.Tasks.Queue.{Task, is_pending}
use cnlab_cs.Tasks.Handler.{assign}
use cnlab_cs.Tasks.Changes.{Weakens, Change, weakens, takes}
use cnlab_cs.Tasks.Server.{Child, has_child}

-- Whoever holds a task that is not completed is a child that has not been waited for.
abbrev pub OwnedBy : List Child → Task → Type 0
OwnedBy cs t = is_pending t ≡ true → has_child t.assigned_to cs ≡ true

abbrev pub Owned : List Child → List Task → Type 0
Owned cs q = All (OwnedBy cs) q

pub Owned-Weakens :
    (cs : List Child) (q r : List Task) → Pointwise Weakens q r → Owned cs q → Owned cs r
Owned-Weakens cs [] [] w o = tt
Owned-Weakens cs [] (u ∷ r) w o = absurd w
Owned-Weakens cs (t ∷ q) [] w o = tt
Owned-Weakens cs (t ∷ q) (u ∷ r) w o = (λ h. ground (arith, w.0, o.0), Owned-Weakens cs q r w.1 o.1)

pub Owned-set :
    (cs : List Child) (q : List Task) (i : ℕ) (u : Task)
    → OwnedBy cs u
    → Owned cs q
    → Owned cs (set q i u)
Owned-set cs [] i u h o = tt
Owned-set cs (t ∷ q) zero u h o = (h, o.1)
Owned-set cs (t ∷ q) (suc i) u h o = (o.0, Owned-set cs q i u h o.1)

pub Change-Owned :
    (cs : List Child) (pid : ℕ) (q r : List Task)
    → has_child pid cs ≡ true
    → Change pid q r
    → Owned cs q
    → Owned cs r
Change-Owned cs pid q r h (weakens w s) o = Owned-Weakens cs q r w o
Change-Owned cs pid q r h (takes i t now get free idle e) o =
    rw e (Owned-set cs q i (assign pid now t) (λ _. h) o)

pub has_child-get :
    (cs : List Child) (i : ℕ) (ch : Child)
    → get_elem? cs i ≡ some ch
    → has_child ch.client.pid cs ≡ true
has_child-get [] i ch e = cc
has_child-get (c ∷ cs) zero ch e = ground arith
has_child-get (c ∷ cs) (suc i) ch e = ground (arith, has_child-get cs i ch e)

pub has_child-set :
    (p : ℕ) (cs : List Child) (i : ℕ) (ch ch' : Child)
    → get_elem? cs i ≡ some ch
    → ch'.client.pid ≡ ch.client.pid
    → has_child p (set cs i ch') ≡ has_child p cs
has_child-set p [] i ch ch' e k = refl
has_child-set p (c ∷ cs) zero ch ch' e k = ground arith
has_child-set p (c ∷ cs) (suc i) ch ch' e k = ground (arith, has_child-set p cs i ch ch' e k)

pub has_child-erase_idx :
    (p : ℕ) (cs : List Child) (i : ℕ) (ch : Child)
    → get_elem? cs i ≡ some ch
    → ch.client.pid ≢ p
    → has_child p cs ≡ true
    → has_child p (erase_idx cs i) ≡ true
has_child-erase_idx p [] i ch e k h = h
has_child-erase_idx p (c ∷ cs) zero ch e k h = ground arith
has_child-erase_idx p (c ∷ cs) (suc i) ch e k h = ground (arith, has_child-erase_idx p cs i ch e k)
