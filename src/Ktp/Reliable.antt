-- ===== src/Ktp/Reliable.antt =====
-- LA4.0: the protocol of ksocket.c delivers what was sent, in order and once each.
use cnlab_cs.Common.{
  ℕ, ◌+◌, ◌≤◌, ◌≡◌, refl, sym, ap, ◌∙◌, none, List, [], ◌∷◌, ◌++◌, arith, length, append-nil,
  length-append,
}
use cnlab_cs.Ktp.Network.{Net, start, Reach}
use cnlab_cs.Ktp.Invariant.{pending, Inv, start-Inv}
use cnlab_cs.Ktp.Preserved.{Reach-Inv}

rest_length : (c : Net) (v : Inv c) → length c.sent ≡ length c.delivered + length v.rest
rest_length c v = rw v.prefix (length-append c.delivered v.rest)

-- At any moment the payloads delivered are a prefix of the payloads sent, which lacks at most the
-- one whose `k_sendto` has not returned.
pub delivered-prefix :
    (a b : ℕ) (c : Net)
    → Reach (start a b) c
    → (rest : List (List ℕ)) × (c.sent ≡ c.delivered ++ rest)
      × (length rest ≤ pending c.outstanding)
delivered-prefix a b c r =
    let v : Inv c = Reach-Inv r (start-Inv a b) in
    (v.rest, v.prefix, omega (arith, rest_length c v, v.counts, v.ahead, v.expects))

-- Whenever no `k_sendto` is in progress, the receiver has exactly the payloads sent, in order.
pub delivered-eq-sent :
    (a b : ℕ) (c : Net) → Reach (start a b) c → c.outstanding ≡ none → c.delivered ≡ c.sent
delivered-eq-sent a b c r idle =
    let (rest, prefix, short) = delivered-prefix a b c r in
    let bound : length rest ≤ 0 = omega (arith, short, ap pending idle) in
    sym (prefix ∙ ap (◌++◌ c.delivered) (empty_of_length rest bound) ∙ append-nil c.delivered)
  where
    empty_of_length : (xs : List (List ℕ)) → length xs ≤ 0 → xs ≡ []
    empty_of_length [] h = refl
    empty_of_length (x ∷ xs) h = absurd (omega arith)
