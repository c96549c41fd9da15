-- ===== src/Cldp/ServerList.antt =====
-- LA7, cldp_client.c: the list of active servers and the loops over it.
use cnlab_cs.Common.{
  ℕ, zero, suc, ◌-◌, Bool, true, false, ◌||◌, not, none, some, List, ltb, ◌==◌, if◌then◌else◌,
  get_elem?, set, take,
}
use cnlab_cs.Common.Arrays.{index_of, close_gap}

abbrev pub max_servers : ℕ
max_servers = 64

abbrev pub server_timeout : ℕ
server_timeout = 30

pub record ServerInfo : Type 0 where
  pub addr : ℕ
  pub last_seen : ℕ
  pub active : Bool

-- The globals `server_list` (an array of MAX_SERVERS entries) and `server_count`.
pub record ServerList : Type 0 where
  pub server_list : List ServerInfo
  pub server_count : ℕ

abbrev pub known : ServerList → List ServerInfo
known s = take s.server_count s.server_list

abbrev pub has_addr : ℕ → ServerInfo → Bool
has_addr a s = s.addr == a

abbrev pub seen : ℕ → ServerInfo → ServerInfo
seen now s = record s { last_seen = now; active = true }

abbrev pub mark_seen : ServerList → ℕ → ℕ → ServerList
mark_seen s i now = elim (get_elem? s.server_list i) [
  | none ↦ s
  | some x ↦ record s { server_list = set s.server_list i (seen now x) }
]

unfoldable pub update_server_list : ServerList → (addr now : ℕ) → ServerList
unfolding index_of
update_server_list s addr now = elim (index_of (has_addr addr) (known s)) [
  | some i ↦ mark_seen s i now
  | none ↦
      if ltb s.server_count max_servers
      then record {
        server_list =
            set s.server_list s.server_count
              (record { addr = addr; last_seen = now; active = true });
        server_count = suc s.server_count;
      }
      else s
]

-- `!active || (now - last_seen > SERVER_TIMEOUT)`
abbrev pub is_stale : ℕ → ServerInfo → Bool
is_stale now x = not x.active || ltb server_timeout (now - x.last_seen)

-- `memmove` closes the gap at `i`, unless it is the last entry.
abbrev pub remove_server : ServerList → ℕ → ServerList
remove_server s i = record {
  server_list =
      if ltb i (s.server_count - 1)
      then close_gap (s.server_count - i - 1) i s.server_list
      else s.server_list;
  server_count = s.server_count - 1;
}

-- `while (i < server_count)` with server_count - i rounds left: each round takes an entry out or
-- moves on.
unfoldable pub cleanup_loop : (rounds i now : ℕ) → ServerList → ServerList
unfolding close_gap
cleanup_loop zero i now s = s
cleanup_loop (suc k) i now s = elim (get_elem? s.server_list i) [
  | none ↦ s
  | some x ↦ elim (is_stale now x) [
    | true ↦ cleanup_loop k i now (remove_server s i)
    | false ↦ cleanup_loop k (suc i) now s
  ]
]

unfoldable pub cleanup_server_list : ServerList → (now : ℕ) → ServerList
unfolding cleanup_loop
cleanup_server_list s now = cleanup_loop s.server_count 0 now s

-- The loop of `query_all_servers` that marks the servers as inactive.
unfoldable pub mark_loop : (rounds i : ℕ) → List ServerInfo → List ServerInfo
mark_loop zero i xs = xs
mark_loop (suc k) i xs = elim (get_elem? xs i) [
  | none ↦ xs
  | some x ↦ mark_loop k (suc i) (set xs i (record x { active = false }))
]

unfoldable pub mark_all_inactive : ServerList → ServerList
unfolding mark_loop
mark_all_inactive s = record s { server_list = mark_loop s.server_count 0 s.server_list }
