-- ===== src/Cldp/Heard.antt =====
-- LA7, cldp_client.c: the servers that a query leaves in the list have been heard during its wait.
use mathlib.Core.Path.{subst}
use cnlab_cs.Common.{
  ℕ, zero, suc, ◌-◌, ◌<◌, ◌≡◌, inl, inr, refl, sym, ap, ◌∙◌, Bool, true, false, ◌&&◌, ◌||◌, none,
  some, List, [], ◌∷◌, map, arith, ◌==◌, ltb, get_elem?, length, All, All-append, length-take,
  Bool-cases, Option-cases, ==→eq, set, ==_self,
}
use cnlab_cs.Common.Arrays.{index_of, index_of-some, find?-eq_none, take-set}
use cnlab_cs.Common.Keys.{get_elem?-take}
use cnlab_cs.Cldp.Packet.{
  protocol_num, msg_hello, msg_response, protocol_of, saddr_of, msg_type_of, trans_id_of,
}
use cnlab_cs.Cldp.ServerList.{
  ServerInfo, ServerList, known, has_addr, seen, is_stale, mark_seen, update_server_list,
  mark_all_inactive, max_servers,
}
use cnlab_cs.Cldp.Directory.{
  lookup, added, added-lookup, known-added, WellFormed, entry, mark_seen-WellFormed,
}
use cnlab_cs.Cldp.Cleanup.{fresh, cleanup_server_list-fresh}
use cnlab_cs.Cldp.Peer.{Found, collect, wait_responses, query_all_servers}
use cnlab_cs.Cldp.Marking.{
  inactive, mark_loop-first, length-mark_first, Distinct-inactive, known-mark_all_inactive,
}

-- What a round finds is a RESPONSE to this query or a HELLO, from the address `a`.
abbrev pub answers : (trans_id a : ℕ) → Found → Bool
answers trans_id a Found.quiet = false
answers trans_id a (Found.readable none) = false
answers trans_id a (Found.readable (some (buffer, src))) =
    (protocol_of buffer == protocol_num)
    && ((saddr_of buffer == a)
        && (((msg_type_of buffer == msg_response) && (trans_id_of buffer == trans_id))
            || (msg_type_of buffer == msg_hello)))

abbrev pub heard : (trans_id a : ℕ) → List (ℕ × (ℕ × Found)) → Bool
heard trans_id a [] = false
heard trans_id a (r ∷ rounds) = answers trans_id a r.1.1 || heard trans_id a rounds

-- Every active server of the list has an address in P.
abbrev ActiveIn : (ℕ → Type 0) → List ServerInfo → Type 0
ActiveIn P xs = All (λ x. x.active ≡ true → P x.addr) xs

All-set :
    (P : ServerInfo → Type 0) (xs : List ServerInfo) (i : ℕ) (v : ServerInfo)
    → All P xs
    → P v
    → All P (set xs i v)
All-set P [] i v h p = tt
All-set P (x ∷ xs) zero v h p = (p, h.1)
All-set P (x ∷ xs) (suc i) v h p = (h.0, All-set P xs i v h.1 p)

-- An invariant of one round: well-formed, and active servers are in P.
record Kept (P : ℕ → Type 0) (s : ServerList) : Type 0 where
  well : WellFormed s
  active : ActiveIn P (known s)

module _ (P : ℕ → Type 0) (s : ServerList) (now : ℕ) (k : Kept P s) where
  mark_seen-Kept :
      (a i : ℕ) → index_of (has_addr a) (known s) ≡ some i → P a → Kept P (mark_seen s i now)
  mark_seen-Kept a i hit p =
      let (x, get, test, found, lt) = index_of-some (has_addr a) (known s) i hit in
      let below : i < s.server_count =
        omega (arith, lt, length-take s.server_count s.server_list) in
      let slot : get_elem? s.server_list i ≡ some x =
        sym (get_elem?-take s.server_count s.server_list i below) ∙ get in
      record {
        well = mark_seen-WellFormed s a now i k.well hit;
        active =
            rw (slot, mark_seen, take-set s.server_count s.server_list i (seen now x))
              (All-set (λ y. y.active ≡ true → P y.addr) (known s) i (seen now x) k.active
                (λ _. subst P (sym (==→eq x.addr a test)) p));
      }

  added-Kept :
      (a : ℕ) → lookup s a ≡ none → s.server_count < max_servers → P a → Kept P (added s a now)
  added-Kept a new free p = record {
    well = (added-lookup s a now k.well free new).0;
    active = rw (known-added s a now k.well free new) (
        All-append (λ y. y.active ≡ true → P y.addr) (known s) (entry a now ∷ []) k.active
          (λ _. p, tt));
  }

  update_server_list-Kept : (a : ℕ) → P a → Kept P (update_server_list s a now)
  unfolding update_server_list
  update_server_list-Kept a p = elim (Option-cases (index_of (has_addr a) (known s))) [
    | inl miss ↦ elim (Bool-cases (ltb s.server_count max_servers)) [
      | inl free ↦
          rw (miss, update_server_list, free)
            (added-Kept a (find?-eq_none (has_addr a) (known s) miss) (ground arith) p)
      | inr full ↦ rw (miss, update_server_list, full) k
    ]
    | inr (i, hit) ↦ rw (hit, update_server_list) (mark_seen-Kept a i hit p)
  ]

  collect-Kept :
      (trans_id n : ℕ) (f : Found)
      → ((a : ℕ) → answers trans_id a f ≡ true → P a)
      → Kept P (collect trans_id (s, n) now f).0
  unfolding collect
  collect-Kept trans_id n Found.quiet h = k
  collect-Kept trans_id n (Found.readable none) h = k
  collect-Kept trans_id n (Found.readable (some (buffer, src))) h =
      elim (Bool-cases (protocol_of buffer == protocol_num)) [
        | inr other ↦ rw (other, collect) k
        | inl cldp ↦
            elim (Bool-cases
              ((msg_type_of buffer == msg_response) && (trans_id_of buffer == trans_id))) [
                | inl reply ↦
                    elim (Option-cases (index_of (has_addr (saddr_of buffer)) (known s))) [
                      | inl unknown ↦ rw (cldp, collect, reply, unknown) k
                      | inr (i, hit) ↦
                          rw (cldp, collect, reply, hit)
                            (mark_seen-Kept (saddr_of buffer) i hit (
                              h (saddr_of buffer)
                                (rw (cldp, ==_self (saddr_of buffer), reply) refl)))
                    ]
                | inr silent ↦ elim (Bool-cases (msg_type_of buffer == msg_hello)) [
                  | inl hello ↦
                      rw (cldp, collect, silent, hello)
                        (update_server_list-Kept (saddr_of buffer) (
                          h (saddr_of buffer)
                            (rw (cldp, ==_self (saddr_of buffer), silent, hello) refl)))
                  | inr neither ↦ rw (cldp, collect, silent, neither) k
                ]
              ]
      ]

wait_responses-Kept :
    (P : ℕ → Type 0) (trans_id start : ℕ) (rounds : List (ℕ × (ℕ × Found))) (s : ServerList) (n : ℕ)
    → Kept P s
    → ((a : ℕ) → heard trans_id a rounds ≡ true → P a)
    → Kept P (wait_responses trans_id start rounds (s, n)).0
unfolding wait_responses
wait_responses-Kept P trans_id start [] s n k h = k
wait_responses-Kept P trans_id start (r ∷ rounds) s n k h =
    elim (Bool-cases (ltb (r.0 - start) 5 && ltb n s.server_count)) [
      | inl more ↦
          let (t, m) = collect trans_id (s, n) r.1.0 r.1.1 in
          rw (more, wait_responses)
            (wait_responses-Kept P trans_id start rounds (collect trans_id (s, n) r.1.0 r.1.1).0
              (collect trans_id (s, n) r.1.0 r.1.1).1
              (collect-Kept P s r.1.0 k trans_id n r.1.1 (λ a e. h a (rw e refl)))
              (λ a e. h a (ground arith)))
      | inr done ↦ rw (done, wait_responses) k
    ]

ActiveIn-inactive : (P : ℕ → Type 0) (xs : List ServerInfo) → ActiveIn P (map inactive xs)
ActiveIn-inactive P [] = tt
ActiveIn-inactive P (x ∷ xs) = (λ e. absurd (ground arith), ActiveIn-inactive P xs)

mark_all_inactive-Kept :
    (P : ℕ → Type 0) (s : ServerList) → WellFormed s → Kept P (mark_all_inactive s)
unfolding mark_all_inactive
mark_all_inactive-Kept P s w = record {
  well = record {
    slots =
        ap length (mark_loop-first s.server_count s.server_list)
        ∙ length-mark_first s.server_count s.server_list
        ∙ w.slots;
    room = w.room;
    distinct = rw (known-mark_all_inactive s) (Distinct-inactive (known s) w.distinct);
  };
  active = rw (known-mark_all_inactive s) (ActiveIn-inactive P (known s));
}

fresh-heard :
    (P : ℕ → Type 0) (now : ℕ) (xs : List ServerInfo)
    → ActiveIn P xs
    → All (λ x. P x.addr) (fresh now xs)
fresh-heard P now [] h = tt
fresh-heard P now (x ∷ xs) h = elim (Bool-cases (is_stale now x)) [
  | inl stale ↦ rw stale (fresh-heard P now xs h.1)
  | inr kept ↦ rw kept (h.0 (ground arith), fresh-heard P now xs h.1)
]

-- After a query of the servers of a well-formed list, of at least one, whatever arrives during the wait, the list is well-formed and
-- every server in it has been heard during the wait: by a RESPONSE with the query's transaction id or
-- by a HELLO from its address. So the servers that stay silent are gone.
pub query_all_servers-heard :
    (ids : ℕ → ℕ) (trans_id flags start end_time : ℕ) (rounds : List (ℕ × (ℕ × Found)))
    (s : ServerList)
    → WellFormed s
    → 0 < s.server_count
    → let t = (query_all_servers ids trans_id flags start end_time rounds s).0.0 in
      WellFormed t × All (λ x. heard trans_id x.addr rounds ≡ true) (known t)
unfolding query_all_servers
query_all_servers-heard ids trans_id flags start end_time rounds s w some_server =
    let P : ℕ → Type 0 = λ a. heard trans_id a rounds ≡ true in
    let waited : ServerList × ℕ = wait_responses trans_id start rounds (mark_all_inactive s, 0) in
    let k : Kept P waited.0 =
      wait_responses-Kept P trans_id start rounds (mark_all_inactive s) 0
        (mark_all_inactive-Kept P s w) (λ a e. e) in
    let (well, kept) = cleanup_server_list-fresh waited.0 end_time k.well in
    let busy : (s.server_count == 0) ≡ false = ground arith in
    rw (busy, query_all_servers) (well, rw kept (fresh-heard P end_time (known waited.0) k.active))
