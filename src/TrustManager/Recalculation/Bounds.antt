-- ===== src/TrustManager/Recalculation/Bounds.antt =====
-- trust_manager/recalculation.py: how far one recalculation can move a score.
use ai_coach_keyholder.Prelude.{ℕ}
use ai_coach_keyholder.Prelude.Int.{
  ℤ, pos, ◌≤ℤ◌, ◌+ℤ◌, min_ℤ, max_ℤ, int_laws, min_ℤ_mono, max_ℤ_mono, +ℤ_mono,
}
use ai_coach_keyholder.TrustManager.Recalculation.{
  one, minus, max_absolute_delta_per_recalculation, max_abs_effective_weight, effective_weight,
  bounded_delta, apply_recalculation,
}

-- A score between 0 and 1 stays there and moves by at most 0.15, however large the sum of the
-- evidence.
pub apply_recalculation_bounds :
    (previous delta : ℤ)
    → pos 0 ≤ℤ previous
    → previous ≤ℤ one
    → (pos 0 ≤ℤ apply_recalculation previous delta)
      × (apply_recalculation previous delta ≤ℤ one)
      × (apply_recalculation previous delta ≤ℤ previous +ℤ pos max_absolute_delta_per_recalculation)
      × (previous ≤ℤ apply_recalculation previous delta +ℤ pos max_absolute_delta_per_recalculation)
unfolding apply_recalculation bounded_delta min_ℤ max_ℤ
apply_recalculation_bounds previous delta h k = grind int_laws

bounded_delta_mono :
    (delta delta' : ℤ) → delta ≤ℤ delta' → bounded_delta delta ≤ℤ bounded_delta delta'
unfolding bounded_delta
bounded_delta_mono delta delta' h =
    max_ℤ_mono (minus max_absolute_delta_per_recalculation)
      (min_ℤ (pos max_absolute_delta_per_recalculation) delta)
      (min_ℤ (pos max_absolute_delta_per_recalculation) delta')
      (min_ℤ_mono (pos max_absolute_delta_per_recalculation) delta delta' h)

-- A larger sum of evidence never gives a lower score, nor does a higher score before it.
pub apply_recalculation_mono :
    (previous previous' delta delta' : ℤ)
    → previous ≤ℤ previous'
    → delta ≤ℤ delta'
    → apply_recalculation previous delta ≤ℤ apply_recalculation previous' delta'
unfolding apply_recalculation
apply_recalculation_mono previous previous' delta delta' h k =
    max_ℤ_mono (pos 0) (min_ℤ one (previous +ℤ bounded_delta delta))
      (min_ℤ one (previous' +ℤ bounded_delta delta'))
      (min_ℤ_mono one (previous +ℤ bounded_delta delta) (previous' +ℤ bounded_delta delta') (
        +ℤ_mono previous previous' (bounded_delta delta) (bounded_delta delta') h
          (bounded_delta_mono delta delta' k)))

-- No piece of evidence weighs more than 0.5 either way.
pub effective_weight_bounds :
    (raw : ℤ) (confidence : ℕ)
    → (minus max_abs_effective_weight ≤ℤ effective_weight raw confidence)
      × (effective_weight raw confidence ≤ℤ pos max_abs_effective_weight)
unfolding effective_weight min_ℤ max_ℤ
effective_weight_bounds raw confidence = grind int_laws
