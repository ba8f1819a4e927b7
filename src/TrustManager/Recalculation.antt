-- ===== src/TrustManager/Recalculation.antt =====
-- trust_manager/recalculation.py: one step of the score. Scores, weights and confidences of evidence
-- are whole numbers: scores and effective weights of ten-thousandths, raw weights and confidences of
-- hundredths; the rounding of floats is not modelled, and neither is the exponential of
-- `compute_confidence`, which is a parameter where it is needed.
pub mod Bounds
use ai_coach_keyholder.Prelude.{ℕ, suc, ◌*◌}
use ai_coach_keyholder.Prelude.Int.{ℤ, pos, negsuc, sub_ℕ, ◌+ℤ◌, min_ℤ, max_ℤ}

abbrev pub one : ℤ
one = pos 10_000

-- 0.15 and 0.5
abbrev pub max_absolute_delta_per_recalculation : ℕ
max_absolute_delta_per_recalculation = 1_500

abbrev pub max_abs_effective_weight : ℕ
max_abs_effective_weight = 5_000

abbrev pub minus : ℕ → ℤ
minus n = sub_ℕ 0 n

unfoldable pub scale : ℤ → ℕ → ℤ
scale (pos a) n = pos (a * n)
scale (negsuc a) n = minus (suc a * n)

-- Of the raw weight and the confidence of a piece of evidence.
unfoldable pub effective_weight : ℤ → ℕ → ℤ
effective_weight raw_weight evidence_confidence =
    max_ℤ (minus max_abs_effective_weight)
      (min_ℤ (pos max_abs_effective_weight) (scale raw_weight evidence_confidence))

unfoldable pub bounded_delta : ℤ → ℤ
bounded_delta proposed_delta =
    max_ℤ (minus max_absolute_delta_per_recalculation)
      (min_ℤ (pos max_absolute_delta_per_recalculation) proposed_delta)

unfoldable pub apply_recalculation : ℤ → ℤ → ℤ
apply_recalculation previous_score proposed_delta =
    max_ℤ (pos 0) (min_ℤ one (previous_score +ℤ bounded_delta proposed_delta))
