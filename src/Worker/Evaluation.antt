-- ===== src/Worker/Evaluation.antt =====
-- LA5/client.c: what evaluate_expression makes of a task.
use cnlab_cs.Common.{
  ℕ, zero, suc, ◌≡◌, ◌≢◌, refl, sym, ap, ◌∙◌, true, false, some, List, [], ◌∷◌, ◌++◌, arith,
  append-nil,
}
use cnlab_cs.Common.Int.{ℤ, pos, negsuc}
use cnlab_cs.Common.Scan.{scan_int, is_space}
use cnlab_cs.Worker.Expression.{
  evaluate_expression, operate, operator, second_operand, divide, as_int, in_int, decimal_int, ◌+ℤ◌,
  ◌*ℤ◌, opposite, quotient,
}
use cnlab_cs.Worker.Numerals.{scan_int-decimal_int, behind_number-decimal_int}

-- The text of a task, like "3 + 4".
abbrev pub expression_text : ℤ → ℕ → ℤ → List ℕ
expression_text a op b = decimal_int a ++ 32 ∷ op ∷ 32 ∷ decimal_int b

as_int-in_int : (z : ℤ) → in_int z ≡ true → as_int z ≡ some z
as_int-in_int z h = rw h refl

scan_int-text : (b : ℤ) → scan_int (32 ∷ decimal_int b) ≡ some b
scan_int-text b = ap scan_int (sym (append-nil (decimal_int b))) ∙ scan_int-decimal_int b [] refl

divide-nonzero : (a b : ℤ) → b ≢ pos 0 → divide a b ≡ as_int (quotient a b)
divide-nonzero a (pos zero) h = absurd (h refl)
divide-nonzero a (pos (suc n)) h = refl
divide-nonzero a (negsuc n) h = refl

evaluate_expression-operate :
    (a b : ℤ) (op : ℕ)
    → in_int a ≡ true
    → in_int b ≡ true
    → is_space op ≡ false
    → evaluate_expression (expression_text a op b) ≡ operate op a (some b)
unfolding evaluate_expression
evaluate_expression-operate a b op ha hb visible =
    rw
      (
        scan_int-decimal_int a (32 ∷ op ∷ 32 ∷ decimal_int b) refl,
        evaluate_expression,
        ha,
        behind_number-decimal_int a (32 ∷ op ∷ 32 ∷ decimal_int b) refl,
        visible,
        operator,
        scan_int-text b,
        second_operand,
        hb,
        second_operand,
      )
      refl

-- A task that is written as two numbers that int can hold, with one of the signs between them and a space on
-- each side, is evaluated to the sum, the difference, the product or, unless the second is zero, the quotient
-- towards zero, if int can hold it; otherwise the behaviour is undefined.
pub evaluate_expression-text :
    (a b : ℤ)
    → in_int a ≡ true
    → in_int b ≡ true
    → (evaluate_expression (expression_text a 43 b) ≡ as_int (a +ℤ b))
      × (evaluate_expression (expression_text a 45 b) ≡ as_int (a +ℤ opposite b))
      × (evaluate_expression (expression_text a 42 b) ≡ as_int (a *ℤ b))
      × (b ≢ pos 0 → evaluate_expression (expression_text a 47 b) ≡ as_int (quotient a b))
evaluate_expression-text a b ha hb = (
  evaluate_expression-operate a b 43 ha hb refl,
  evaluate_expression-operate a b 45 ha hb refl,
  evaluate_expression-operate a b 42 ha hb refl,
  λ nonzero. evaluate_expression-operate a b 47 ha hb refl ∙ divide-nonzero a b nonzero,
)

-- A task of this form whose sign is none of the four, nor a space, gives 0, and so does a division by zero.
pub evaluate_expression-errors :
    (a b : ℤ) (op : ℕ)
    → in_int a ≡ true
    → in_int b ≡ true
    → is_space op ≡ false
    → (op ≢ 43) × (op ≢ 45) × (op ≢ 42) × (op ≢ 47)
    → (evaluate_expression (expression_text a op b) ≡ some (pos 0))
      × (evaluate_expression (expression_text a 47 (pos 0)) ≡ some (pos 0))
evaluate_expression-errors a b op ha hb visible (plus, minus, times, over) = (
  evaluate_expression-operate a b op ha hb visible ∙ ground arith,
  evaluate_expression-operate a (pos 0) 47 ha refl refl,
)
