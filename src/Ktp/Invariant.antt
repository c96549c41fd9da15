-- ===== src/Ktp/Invariant.antt =====
-- LA4.0: what holds of the sender, the receiver and the network at any moment.
use cnlab_cs.Common.{
  ℕ, suc, ◌+◌, ◌-◌, ◌≤◌, ◌<◌, ◌≡◌, ◌⊎◌, refl, ap, Option, none, some, List, [], ◌∷◌, ◌++◌, arith,
  length, All, take, append_assoc, get_elem?, length-append, get_elem?-append, get_elem?-append_end,
  All-map, length-take-le,
}
use cnlab_cs.Ktp.Socket.{new_sock, max_data_size}
use cnlab_cs.Ktp.Send.{data_packet}
use cnlab_cs.Ktp.Recv.{Ack}
use cnlab_cs.Ktp.Network.{Net, start}

abbrev pub pending : Option (List ℕ) → ℕ
pending none = 0
pending (some _) = 1

-- A packet on the network is the one of some payload that was sent, under its number.
pub record IsData (sent : List (List ℕ)) (pkt : List ℕ) : Type 0 where
  pub index : ℕ
  pub unset : List ℕ
  pub payload : List ℕ
  pub bytes : pkt ≡ data_packet (suc index) unset payload
  pub header : length unset ≡ 6
  pub fits : length payload ≤ 512
  pub low : index < 128
  pub origin : get_elem? sent index ≡ some payload

-- An acknowledgement on the network is of a number that was delivered, or of the stuck number 128.
abbrev pub IsAck : ℕ → Ack → Type 0
IsAck r a = (a.seqno < r) ⊎ (a.seqno ≡ 128)

abbrev pub Outstanding : List (List ℕ) → ℕ → Option (List ℕ) → Type 0
Outstanding sent n none = Unit {0}
Outstanding sent n (some m) = (get_elem? sent (n - 1) ≡ some m) × (length m ≤ 512)

pub record Inv (c : Net) : Type 0 where
  pub counts : c.sender.next_seqno + pending c.outstanding ≡ suc (length c.sent)
  pub low : c.sender.next_seqno ≤ 128
  pub positive : 0 < c.sender.next_seqno
  pub expects : c.receiver.exp_seqno ≡ suc (length c.delivered)
  pub ahead : c.sender.next_seqno ≤ c.receiver.exp_seqno
  pub rest : List (List ℕ)
  pub prefix : c.sent ≡ c.delivered ++ rest
  pub current : Outstanding c.sent c.sender.next_seqno c.outstanding
  pub data_ok : All (IsData c.sent) c.packets
  pub acks_ok : All (IsAck c.receiver.exp_seqno) c.acks

pub start-Inv : (a b : ℕ) → Inv (start a b)
unfolding new_sock
start-Inv a b = record {
  counts = refl;
  low = omega arith;
  positive = omega arith;
  expects = refl;
  ahead = omega arith;
  rest = [];
  prefix = refl;
  current = tt;
  data_ok = tt;
  acks_ok = tt;
}

IsData-append :
    (sent more : List (List ℕ)) (pkt : List ℕ) → IsData sent pkt → IsData (sent ++ more) pkt
IsData-append sent more pkt d = record {
  index = d.index;
  unset = d.unset;
  payload = d.payload;
  bytes = d.bytes;
  header = d.header;
  fits = d.fits;
  low = d.low;
  origin = get_elem?-append sent more d.index d.origin;
}

pub call-Inv :
    (c : Net) (buf : List ℕ)
    → c.outstanding ≡ none
    → Inv c
    → Inv (record c {
      outstanding = some (take max_data_size buf);
      sent = c.sent ++ take max_data_size buf ∷ [];
    })
call-Inv c buf idle v =
    let m = take max_data_size buf in
    let n : c.sender.next_seqno ≡ suc (length c.sent) = omega (arith, v.counts, ap pending idle) in
    let last : c.sender.next_seqno - 1 ≡ length c.sent = omega arith in
    record {
      counts = omega (arith, length-append c.sent (m ∷ []));
      low = v.low;
      positive = v.positive;
      expects = v.expects;
      ahead = v.ahead;
      rest = v.rest ++ m ∷ [];
      prefix = rw v.prefix (append_assoc c.delivered v.rest (m ∷ []));
      current = (rw last (get_elem?-append_end c.sent m), length-take-le 512 buf);
      data_ok = All-map (IsData-append c.sent (m ∷ [])) c.packets v.data_ok;
      acks_ok = v.acks_ok;
    }

pub transmit-Inv :
    (c : Net) (payload unset : List ℕ)
    → c.outstanding ≡ some payload
    → length unset ≡ 6
    → Inv c
    → Inv (record c { packets = data_packet c.sender.next_seqno unset payload ∷ c.packets })
transmit-Inv c payload unset busy header v =
    let now : Outstanding c.sent c.sender.next_seqno (some payload) = rw busy at v.current in
    let number : c.sender.next_seqno ≡ suc (c.sender.next_seqno - 1) = omega (arith, v.positive) in
    let packet : IsData c.sent (data_packet c.sender.next_seqno unset payload) = record {
      index = c.sender.next_seqno - 1;
      unset = unset;
      payload = payload;
      bytes = ap (λ k. data_packet k unset payload) number;
      header = header;
      fits = now.1;
      low = omega (arith, v.low, v.positive);
      origin = now.0;
    } in
    record {
      counts = v.counts;
      low = v.low;
      positive = v.positive;
      expects = v.expects;
      ahead = v.ahead;
      rest = v.rest;
      prefix = v.prefix;
      current = v.current;
      data_ok = (packet, v.data_ok);
      acks_ok = v.acks_ok;
    }
