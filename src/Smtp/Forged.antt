-- ===== src/Smtp/Forged.antt =====
-- LA6: a MAIL FROM that is refused, and the DATA after it.
use cnlab_cs.Common.{ℕ, ◌≡◌, ◌≢◌, false, List, [], ◌∷◌, ◌++◌, All}
use cnlab_cs.Common.Bytes.{codes, newline}
use cnlab_cs.Common.Scan.{is_space}
use cnlab_cs.Smtp.Session.{Session, received_into}

-- Characters of a word: no space, and no zero.
abbrev pub IsWord : List ℕ → Type 0
IsWord w = All (λ c. (is_space c ≡ false) × (c ≢ 0)) w

-- The connection after a MAIL FROM of a wrong domain.
abbrev pub refused : Session → (bytes w : List ℕ) → Session
refused s bytes w = record s { buffer = received_into s.buffer bytes; sender = w }

abbrev pub mail_from : List ℕ → List ℕ
mail_from w = codes "MAIL FROM: " ++ (w ++ newline ∷ [])
