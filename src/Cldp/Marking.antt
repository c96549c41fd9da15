-- ===== src/Cldp/Marking.antt =====
-- LA7, cldp_client.c: the loop of `query_all_servers` that marks every server as inactive.
use cnlab_cs.Common.{
  ℕ, zero, suc, ◌≡◌, inl, inr, refl, ap, ◌∙◌, false, none, List, [], ◌∷◌, map, arith, get_elem?,
  length, take, Option-cases, set,
}
use cnlab_cs.Common.Arrays.{find?}
use cnlab_cs.Common.Keys.{Distinct}
use cnlab_cs.Cldp.ServerList.{ServerInfo, ServerList, known, has_addr, mark_loop, mark_all_inactive}
use cnlab_cs.Cldp.Directory.{addr_of}

abbrev pub inactive : ServerInfo → ServerInfo
inactive x = record x { active = false }

abbrev pub mark_first : ℕ → List ServerInfo → List ServerInfo
mark_first zero xs = xs
mark_first (suc k) [] = []
mark_first (suc k) (x ∷ xs) = inactive x ∷ mark_first k xs

mark_loop-cons :
    (k i : ℕ) (x : ServerInfo) (xs : List ServerInfo)
    → mark_loop k (suc i) (x ∷ xs) ≡ x ∷ mark_loop k i xs
unfolding mark_loop
mark_loop-cons zero i x xs = refl
mark_loop-cons (suc k) i x xs = elim (Option-cases (get_elem? xs i)) [
  | inl missing ↦ rw (missing, mark_loop) refl
  | inr (y, slot) ↦ rw (slot, mark_loop) (mark_loop-cons k (suc i) x (set xs i (inactive y)))
]

pub mark_loop-first : (k : ℕ) (xs : List ServerInfo) → mark_loop k 0 xs ≡ mark_first k xs
unfolding mark_loop
mark_loop-first zero xs = refl
mark_loop-first (suc k) [] = refl
mark_loop-first (suc k) (x ∷ xs) =
    mark_loop-cons k 0 (inactive x) xs ∙ ap (◌∷◌ (inactive x)) (mark_loop-first k xs)

take-mark_first :
    (k : ℕ) (xs : List ServerInfo) → take k (mark_first k xs) ≡ map inactive (take k xs)
take-mark_first zero xs = refl
take-mark_first (suc k) [] = refl
take-mark_first (suc k) (x ∷ xs) = ap (◌∷◌ (inactive x)) (take-mark_first k xs)

pub length-mark_first : (k : ℕ) (xs : List ServerInfo) → length (mark_first k xs) ≡ length xs
length-mark_first zero xs = refl
length-mark_first (suc k) [] = refl
length-mark_first (suc k) (x ∷ xs) = ap suc (length-mark_first k xs)

find?-inactive-none :
    (a : ℕ) (xs : List ServerInfo)
    → find? (has_addr a) xs ≡ none
    → find? (has_addr a) (map inactive xs) ≡ none
find?-inactive-none a [] e = refl
find?-inactive-none a (x ∷ xs) e = ground (arith, find?-inactive-none a xs)

pub Distinct-inactive :
    (xs : List ServerInfo) → Distinct addr_of xs → Distinct addr_of (map inactive xs)
Distinct-inactive [] d = tt
Distinct-inactive (x ∷ xs) d = (find?-inactive-none x.addr xs d.0, Distinct-inactive xs d.1)

-- Marking makes every server of the list inactive and changes nothing else of it.
pub known-mark_all_inactive :
    (s : ServerList) → known (mark_all_inactive s) ≡ map inactive (known s)
unfolding mark_all_inactive
known-mark_all_inactive s =
    ap (take s.server_count) (mark_loop-first s.server_count s.server_list)
    ∙ take-mark_first s.server_count s.server_list
