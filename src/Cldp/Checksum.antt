-- ===== src/Cldp/Checksum.antt =====
-- LA7, `checksum` of cldp_server.c and cldp_client.c: the internet checksum of 16-bit words.
use mathlib.Core.Logic.{dite}
use mathlib.Core.WellFounded.{Acc}
use native.Mathlib.Decide.{dec_lt}
use cnlab_cs.Common.{ℕ, ◌+◌, ◌-◌, ◌/◌, ◌%◌, ◌<◌, List, [], ◌∷◌, arith}
use cnlab_cs.Common.Order.{lt_wf}

-- 2 ^ 64: `unsigned long` wraps there.
abbrev pub u64_mod : ℕ
u64_mod = 18446744073709551616

-- `sum += buf[i]`
unfoldable pub sum_words : ℕ → List ℕ → ℕ
sum_words sum [] = sum
sum_words sum (w ∷ ws) = sum_words ((sum + w) % u64_mod) ws

-- `(sum & 0xffff) + (sum >> 16)`
abbrev pub fold_once : ℕ → ℕ
fold_once sum = sum % 65536 + sum / 65536

-- `while (sum >> 16)`: the sum falls, so no fuel is needed.
unfoldable pub fold_acc : (sum : ℕ) → Acc ◌<◌ sum → ℕ
fold_acc sum (Acc.intro _ smaller) =
    dite (dec_lt 0 (sum / 65536))
      (λ h. fold_acc (fold_once sum) (smaller (fold_once sum) (omega arith))) (λ _. sum)

unfoldable pub fold_carries : ℕ → ℕ
unfolding fold_acc lt_wf
fold_carries sum = fold_acc sum (lt_wf.apply sum)

-- `(unsigned short)(~sum)`
unfoldable pub checksum : List ℕ → ℕ
checksum buf = (u64_mod - 1 - fold_carries (sum_words 0 buf)) % 65536
