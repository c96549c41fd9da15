-- ===== src/Ktp/Socket.antt =====
-- LA4.0/ksocket.h and ksocket.c: the socket table and the calls that do not exchange packets.
use cnlab_cs.Common.{
  ℕ, suc, ◌-◌, Bool, true, false, ◌||◌, not, Option, none, some, List, leb, ◌==◌, if◌then◌else◌,
  get_elem?, set, take,
}
use cnlab_cs.Common.Arrays.{index_of, close_gap}

abbrev pub max_sockets : ℕ
max_sockets = 10

abbrev pub max_data_size : ℕ
max_data_size = 512

abbrev pub header_size : ℕ
header_size = 8

abbrev pub pkt_size : ℕ
pkt_size = 520

abbrev pub data_msg : ℕ
data_msg = 0

abbrev pub ack_msg : ℕ
ack_msg = 1

-- AF_INET, and SOCK_KTP, which is SOCK_DGRAM.
abbrev pub af_inet : ℕ
af_inet = 2

abbrev pub sock_ktp : ℕ
sock_ktp = 2

pub record SockAddr : Type 0 where
  pub family : ℕ
  pub port : ℕ
  pub addr : ℕ

-- `src` and `dest` hold nothing until `k_bind` writes them.
pub record KtpSocket : Type 0 where
  pub sockfd : ℕ
  pub src : Option SockAddr
  pub dest : Option SockAddr
  pub bound : Bool
  pub next_seqno : ℕ
  pub last_ackno : ℕ
  pub exp_seqno : ℕ

-- The globals `ktp_sockets` (an array of N entries) and `sock_count`.
pub record Table : Type 0 where
  pub ktp_sockets : List KtpSocket
  pub sock_count : ℕ

-- `sys` is an error that the operating system reported.
pub data Errno : Type 0 where
  einval enospace enotsock enotbound sys : Errno

-- What a call returns: a result that is not negative, or -1 with `errno`.
pub data Ret (A : Type 0) : Type 0 where
  ok : A → Ret A
  fail : Errno → Ret A

-- The entries in use.
abbrev pub live : Table → List KtpSocket
live t = take t.sock_count t.ktp_sockets

abbrev pub has_fd : ℕ → KtpSocket → Bool
has_fd fd s = s.sockfd == fd

unfoldable pub new_sock : ℕ → KtpSocket
new_sock fd = record {
  sockfd = fd;
  src = none;
  dest = none;
  bound = false;
  next_seqno = 1;
  last_ackno = 0;
  exp_seqno = 1;
}

-- `os` is the result of `socket`, `none` for -1.
unfoldable pub k_socket : Table → (domain type protocol : ℕ) → (os : Option ℕ) → Table × Ret ℕ
unfolding new_sock
k_socket t domain type protocol os =
    if not (domain == af_inet) || not (type == sock_ktp) || not (protocol == 0)
    then (t, fail einval)
    else (if leb max_sockets t.sock_count then (t, fail enospace) else elim os [
      | none ↦ (t, fail sys)
      | some fd ↦ (
        record t {
          ktp_sockets = set t.ktp_sockets t.sock_count (new_sock fd);
          sock_count = suc t.sock_count;
        },
        ok fd,
      )
    ])

-- The index behind the pointer that `find_sock` returns; `none` is NULL, with errno ENOTSOCK.
unfoldable pub find_sock : Table → ℕ → Option ℕ
unfolding index_of
find_sock t fd = index_of (has_fd fd) (live t)

-- A write through the pointer: the entry at `i`, changed by `f`.
unfoldable pub update_sock : Table → ℕ → (KtpSocket → KtpSocket) → Table
update_sock t i f = elim (get_elem? t.ktp_sockets i) [
  | none ↦ t
  | some s ↦ record t { ktp_sockets = set t.ktp_sockets i (f s) }
]

abbrev pub set_addrs : SockAddr → SockAddr → KtpSocket → KtpSocket
set_addrs src dest s = record s { src = some src; dest = some dest }

abbrev pub set_bound : KtpSocket → KtpSocket
set_bound s = record s { bound = true }

-- Addresses are NULL or point to an address; `bind_ok` is whether `bind` succeeds.
unfoldable pub k_bind :
    Table → ℕ → Option SockAddr → Option SockAddr → (bind_ok : Bool) → Table × Ret ℕ
unfolding find_sock update_sock
k_bind t fd none dest_addr bind_ok = (t, fail einval)
k_bind t fd (some src) none bind_ok = (t, fail einval)
k_bind t fd (some src) (some dest) bind_ok =
    if not (src.family == af_inet) || not (dest.family == af_inet)
    then (t, fail einval)
    else elim (find_sock t fd) [
      | none ↦ (t, fail enotsock)
      | some i ↦
          let stored = update_sock t i (set_addrs src dest) in
          if bind_ok then (update_sock stored i set_bound, ok 0) else (stored, fail sys)
    ]

-- `close_ok` is whether `close` succeeds. The second search of the source repeats `find_sock`.
unfoldable pub k_close : Table → ℕ → (close_ok : Bool) → Table × Ret ℕ
unfolding find_sock close_gap
k_close t fd close_ok = elim (find_sock t fd) [
  | none ↦ (t, fail enotsock)
  | some i ↦
      if close_ok
      then (
        record t {
          ktp_sockets = close_gap (t.sock_count - 1 - i) i t.ktp_sockets;
          sock_count = t.sock_count - 1;
        },
        ok 0,
      )
      else (t, fail sys)
]
