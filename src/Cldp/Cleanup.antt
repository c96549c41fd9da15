-- ===== src/Cldp/Cleanup.antt =====
-- LA7, cldp_client.c: what `cleanup_server_list` and the loop that marks servers as inactive keep.
use cnlab_cs.Common.{
  ℕ, zero, suc, ◌+◌, ◌-◌, ◌≤◌, ◌<◌, ◌≡◌, refl, sym, ap, ◌∙◌, inl, inr, none, some, List, [], ◌∷◌,
  ◌++◌, arith, ltb, if◌then◌else◌, Bool-cases, Option-cases, length, get_elem?, length-take,
  append_assoc, length-append, get_elem?-append_middle,
}
use cnlab_cs.Common.Arrays.{find?, erase_idx, close_gap, take-close_gap_count, length-close_gap}
use cnlab_cs.Common.Keys.{Distinct, get_elem?-take}
use cnlab_cs.Cldp.ServerList.{
  ServerInfo, ServerList, known, has_addr, is_stale, remove_server, cleanup_loop,
  cleanup_server_list,
}
use cnlab_cs.Cldp.Directory.{addr_of, WellFormed}

-- The servers that are active and were seen within 30 seconds.
abbrev pub fresh : ℕ → List ServerInfo → List ServerInfo
fresh now [] = []
fresh now (x ∷ xs) = if is_stale now x then fresh now xs else x ∷ fresh now xs

remove_server-closes :
    (s : ServerList) (i : ℕ)
    → remove_server s i ≡ record {
      server_list = close_gap (s.server_count - 1 - i) i s.server_list;
      server_count = s.server_count - 1;
    }
unfolding close_gap
remove_server-closes s i = elim (Bool-cases (ltb i (s.server_count - 1))) [
  | inl inner ↦
      let rounds : s.server_count - i - 1 ≡ s.server_count - 1 - i = omega arith in
      rw (inner, rounds) refl
  | inr last ↦ let rounds : s.server_count - 1 - i ≡ 0 = ground arith in rw (last, rounds) refl
]

known-remove_server :
    (s : ServerList) (i : ℕ)
    → i < s.server_count
    → s.server_count ≤ length s.server_list
    → known (remove_server s i) ≡ erase_idx (known s) i
known-remove_server s i below fits =
    ap known (remove_server-closes s i)
    ∙ take-close_gap_count s.server_count i s.server_list below fits

remove_server-fits :
    (s : ServerList) (i : ℕ)
    → s.server_count ≤ length s.server_list
    → (remove_server s i).server_count ≤ length (remove_server s i).server_list
remove_server-fits s i fits =
    rw (ap (λ t. length t.server_list) (remove_server-closes s i))
      (omega (arith, length-close_gap (s.server_count - 1 - i) i s.server_list))

length-remove_server :
    (s : ServerList) (i : ℕ) → length (remove_server s i).server_list ≡ length s.server_list
length-remove_server s i =
    ap (λ t. length t.server_list) (remove_server-closes s i)
    ∙ length-close_gap (s.server_count - 1 - i) i s.server_list

erase_idx-append :
    (xs ys : List ServerInfo) (x : ServerInfo) → erase_idx (xs ++ x ∷ ys) (length xs) ≡ xs ++ ys
erase_idx-append [] ys x = refl
erase_idx-append (y ∷ xs) ys x = ap (◌∷◌ y) (erase_idx-append xs ys x)

cleanup_loop-known :
    (k now : ℕ) (s : ServerList) (before rest : List ServerInfo)
    → s.server_count ≤ length s.server_list
    → known s ≡ before ++ rest
    → length rest ≡ k
    → known (cleanup_loop k (length before) now s) ≡ before ++ fresh now rest
unfolding cleanup_loop
cleanup_loop-known zero now s before [] fits e h = e
cleanup_loop-known zero now s before (x ∷ rest) fits e h = absurd (omega arith)
cleanup_loop-known (suc k) now s before [] fits e h = absurd (omega arith)
cleanup_loop-known (suc k) now s before (x ∷ rest) fits e h =
    let size : length (known s) ≡ length before + suc k =
      ap length e ∙ length-append before (x ∷ rest) ∙ omega arith in
    let below : length before < s.server_count =
      omega (arith, size, length-take s.server_count s.server_list) in
    let slot : get_elem? s.server_list (length before) ≡ some x =
      sym (get_elem?-take s.server_count s.server_list (length before) below)
      ∙ ap (λ xs. get_elem? xs (length before)) e
      ∙ get_elem?-append_middle before rest x in
    elim (Bool-cases (is_stale now x)) [
      | inl stale ↦
          let gone : known (remove_server s (length before)) ≡ before ++ rest =
            known-remove_server s (length before) below fits
            ∙ ap (λ xs. erase_idx xs (length before)) e
            ∙ erase_idx-append before rest x in
          rw (slot, cleanup_loop, stale)
            (cleanup_loop-known k now (remove_server s (length before)) before rest
              (remove_server-fits s (length before) fits) gone (omega arith))
      | inr kept ↦
          let next : length (before ++ x ∷ []) ≡ suc (length before) =
            length-append before (x ∷ []) ∙ omega arith in
          rw (slot, cleanup_loop, kept, ← next)
            (cleanup_loop-known k now s (before ++ x ∷ []) rest fits
                (e ∙ sym (append_assoc before (x ∷ []) rest)) (omega arith)
              ∙ append_assoc before (x ∷ []) (fresh now rest))
    ]

fresh-new :
    (now a : ℕ) (xs : List ServerInfo)
    → find? (has_addr a) xs ≡ none
    → find? (has_addr a) (fresh now xs) ≡ none
fresh-new now a [] n = refl
fresh-new now a (x ∷ xs) n = ground (arith, fresh-new now a xs)

Distinct-fresh :
    (now : ℕ) (xs : List ServerInfo) → Distinct addr_of xs → Distinct addr_of (fresh now xs)
Distinct-fresh now [] d = d
Distinct-fresh now (x ∷ xs) d = elim (Bool-cases (is_stale now x)) [
  | inl stale ↦ rw stale (Distinct-fresh now xs d.1)
  | inr kept ↦ rw kept (fresh-new now x.addr xs d.0, Distinct-fresh now xs d.1)
]

cleanup_loop-sizes :
    (k i now : ℕ) (s : ServerList)
    → let t = cleanup_loop k i now s in
      (length t.server_list ≡ length s.server_list) × (t.server_count ≤ s.server_count)
unfolding cleanup_loop
cleanup_loop-sizes zero i now s = (refl, omega arith)
cleanup_loop-sizes (suc k) i now s = elim (Option-cases (get_elem? s.server_list i)) [
  | inl missing ↦ rw (missing, cleanup_loop) (refl, omega arith)
  | inr (x, slot) ↦ elim (Bool-cases (is_stale now x)) [
    | inl stale ↦
        let (size, count) = cleanup_loop-sizes k i now (remove_server s i) in
        rw (slot, cleanup_loop, stale) (size ∙ length-remove_server s i, omega (arith, count))
    | inr kept ↦ rw (slot, cleanup_loop, kept) (cleanup_loop-sizes k (suc i) now s)
  ]
]

-- A cleanup of a well-formed list keeps exactly the servers that are active and were seen within the last 30 seconds, in
-- their order, and the list stays well-formed.
pub cleanup_server_list-fresh :
    (s : ServerList) (now : ℕ)
    → WellFormed s
    → WellFormed (cleanup_server_list s now)
      × (known (cleanup_server_list s now) ≡ fresh now (known s))
unfolding cleanup_server_list
cleanup_server_list-fresh s now w =
    let kept : known (cleanup_server_list s now) ≡ fresh now (known s) =
      cleanup_loop-known s.server_count now s [] (known s) (omega (arith, w.slots, w.room)) refl
        (omega (arith, w.slots, w.room, length-take s.server_count s.server_list)) in
    let (size, count) = cleanup_loop-sizes s.server_count 0 now s in
    (
      record {
        slots = size ∙ w.slots;
        room = omega (arith, count, w.room);
        distinct = rw kept (Distinct-fresh now (known s) w.distinct);
      },
      kept,
    )
