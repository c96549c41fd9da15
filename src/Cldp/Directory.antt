-- ===== src/Cldp/Directory.antt =====
-- LA7, cldp_client.c: the list of servers as a finite map from addresses, and what a cleanup keeps.
use cnlab_cs.Common.{
  ℕ, suc, ◌≤◌, ◌<◌, ◌≡◌, ◌≢◌, ◌⊎◌, refl, sym, ap, ◌∙◌, inl, inr, true, false, Option, none, some,
  [], ◌∷◌, ◌++◌, arith, ltb, ◌==◌, if◌then◌else◌, Bool-cases, Option-cases, length, get_elem?, set,
  length-set, length-take, ==→eq,
}
use cnlab_cs.Common.Arrays.{
  index_of, find?, index_of-some, find?-eq_none, index_of-eq_none, find?-append, take-set,
}
use cnlab_cs.Common.Keys.{
  Distinct, Distinct-append_one, Distinct-set, find?-set_key, take-set_end, get_elem?-take,
}
use cnlab_cs.Cldp.ServerList.{
  ServerInfo, ServerList, known, has_addr, seen, mark_seen, update_server_list, max_servers,
}

abbrev pub addr_of : ServerInfo → ℕ
addr_of s = s.addr

pub record WellFormed (s : ServerList) : Type 0 where
  pub slots : length s.server_list ≡ max_servers
  pub room : s.server_count ≤ max_servers
  pub distinct : Distinct addr_of (known s)

abbrev pub lookup : ServerList → ℕ → Option ServerInfo
lookup s a = find? (has_addr a) (known s)

abbrev pub entry : ℕ → ℕ → ServerInfo
entry addr now = record { addr = addr; last_seen = now; active = true }

-- A record in the list, seen again.
module _ (s : ServerList) (addr now i : ℕ) (w : WellFormed s)
    (hit : index_of (has_addr addr) (known s) ≡ some i) where
  seen_at :
      (x : ServerInfo) × (get_elem? (known s) i ≡ some x)
      × (x.addr ≡ addr)
      × (get_elem? s.server_list i ≡ some x)
      × (lookup s addr ≡ some x)
  seen_at =
      let (x, get, test, found, lt) = index_of-some (has_addr addr) (known s) i hit in
      let below : i < s.server_count =
        omega (arith, lt, length-take s.server_count s.server_list) in
      (
        x,
        get,
        ==→eq x.addr addr test,
        sym (get_elem?-take s.server_count s.server_list i below) ∙ get,
        found,
      )

  mark_seen-lookup :
      WellFormed (mark_seen s i now)
      × ((j : ℕ)
          → lookup (mark_seen s i now) j
            ≡ (if addr == j then some (entry addr now) else lookup s j))
  mark_seen-lookup =
      let (x, get, key, slot, found) = seen_at in
      let same : seen now x ≡ entry addr now = ap (λ a. entry a now) key in
      rw (slot, mark_seen)
        (
          record {
            slots = length-set s.server_list i (seen now x) ∙ w.slots;
            room = w.room;
            distinct =
                rw (take-set s.server_count s.server_list i (seen now x))
                  (Distinct-set addr_of (known s) i x (seen now x) get refl w.distinct);
          },
          λ j. rw (take-set s.server_count s.server_list i (seen now x)) (
              find?-set_key addr_of (known s) i addr j x (seen now x) hit get key key
              ∙ ap (λ y. if addr == j then some y else lookup s j) same),
        )

abbrev pub added : ServerList → ℕ → ℕ → ServerList
added s addr now = record {
  server_list = set s.server_list s.server_count (entry addr now);
  server_count = suc s.server_count;
}

module _ (s : ServerList) (addr now : ℕ) (w : WellFormed s) (free : s.server_count < max_servers)
    (new : lookup s addr ≡ none) where
  pub known-added : known (added s addr now) ≡ known s ++ entry addr now ∷ []
  known-added = take-set_end s.server_count s.server_list (entry addr now) (omega (arith, w.slots))

  pub added-lookup :
      WellFormed (added s addr now)
      × ((j : ℕ)
          → lookup (added s addr now) j ≡ (if addr == j then some (entry addr now) else lookup s j))
  added-lookup = (
    record {
      slots = length-set s.server_list s.server_count (entry addr now) ∙ w.slots;
      room = free;
      distinct =
          rw known-added (Distinct-append_one addr_of (known s) (entry addr now) w.distinct new);
    },
    λ j.
        rw (known-added, find?-append (has_addr j) (known s) (entry addr now ∷ []))
          (ground (arith, ==→eq addr j)),
  )

pub mark_seen-WellFormed :
    (s : ServerList) (addr now i : ℕ)
    → WellFormed s
    → index_of (has_addr addr) (known s) ≡ some i
    → WellFormed (mark_seen s i now)
mark_seen-WellFormed s addr now i w hit = (mark_seen-lookup s addr now i w hit).0

-- In a well-formed list, a HELLO from an address that is in the list, or from a new one while there is room: the address
-- is then in the list, active and seen now, in one entry only, every other address is as it was,
-- and the list stays well-formed.
pub update_server_list-lookup :
    (s : ServerList) (addr now : ℕ)
    → WellFormed s
    → ((lookup s addr ≢ none) ⊎ (s.server_count < max_servers))
    → WellFormed (update_server_list s addr now)
      × ((j : ℕ)
          → lookup (update_server_list s addr now) j
            ≡ (if addr == j then some (entry addr now) else lookup s j))
unfolding update_server_list
update_server_list-lookup s addr now w possible =
    elim (Option-cases (index_of (has_addr addr) (known s))) [
      | inl miss ↦
          let new : lookup s addr ≡ none = find?-eq_none (has_addr addr) (known s) miss in
          elim possible [
            | inl old ↦ absurd (old new)
            | inr free ↦
                let test : ltb s.server_count max_servers ≡ true = ground arith in
                rw (miss, update_server_list, test) (added-lookup s addr now w free new)
          ]
      | inr (i, hit) ↦ rw (hit, update_server_list) (mark_seen-lookup s addr now i w hit)
    ]

-- A new address that finds the list full changes nothing.
pub update_server_list-full :
    (s : ServerList) (addr now : ℕ)
    → lookup s addr ≡ none
    → max_servers ≤ s.server_count
    → update_server_list s addr now ≡ s
unfolding update_server_list
update_server_list-full s addr now new full =
    let test : ltb s.server_count max_servers ≡ false = ground arith in
    rw (index_of-eq_none (has_addr addr) (known s) new, update_server_list, test) refl

pub update_server_list-WellFormed :
    (s : ServerList) (addr now : ℕ) → WellFormed s → WellFormed (update_server_list s addr now)
update_server_list-WellFormed s addr now w = elim (Option-cases (lookup s addr)) [
  | inl new ↦ elim (Bool-cases (ltb s.server_count max_servers)) [
    | inl free ↦ (update_server_list-lookup s addr now w (inr (ground arith))).0
    | inr full ↦ rw (update_server_list-full s addr now new (ground arith)) w
  ]
  | inr (x, old) ↦
      (update_server_list-lookup s addr now w (inl (λ n. some-not-none (sym old ∙ n)))).0
]
  where
    some-not-none : {x : ServerInfo} → some x ≢ none
    some-not-none e = cc
