-- ===== src/TrustManager/Domains.antt =====
-- trust_manager/repository.py: the registry of domains, and the recalculation of a domain's trust.
pub mod Scores
pub mod Once
use ai_coach_keyholder.Prelude.{
  ℕ, ◌-◌, ◌*◌, ⊤, Bool, true, false, Option, none, some, List, [], ◌∷◌, ok, err, ◌==◌, ◌&&◌, not,
}
use ai_coach_keyholder.Prelude.Int.{ℤ, pos, ◌+ℤ◌}
use ai_coach_keyholder.Prelude.Lists.{count_where, exists, select, find, order_by, update_where}
use ai_coach_keyholder.Infrastructure.TimeFormat.{iso_key, iso_leb, second}
use ai_coach_keyholder.Infrastructure.Transaction.{
  Method, gets, modify, pure, raise, raise_if, ◌>>=◌, ◌>>◌, write_and_events, apply_transition,
}
use ai_coach_keyholder.TrustManager.Recalculation.{effective_weight, apply_recalculation}
use ai_coach_keyholder.TrustManager.Store.{
  TrustDomain, TrustDomainState, stable, TrustEvidence, TrustRecalculation, AppliedEvidence,
  TrustTables, TrustError, constraint_failed, missing_row, TrustAction, fresh_id, emit,
  domain_created, domain_deactivated, domain_reactivated, domain_recalculated,
}

-- 0.6 and 0.15
abbrev pub default_new_domain_score : ℤ
default_new_domain_score = pos 6_000

abbrev pub default_new_domain_confidence : ℤ
default_new_domain_confidence = pos 1_500

abbrev pub or_else : Option ℤ → ℤ → ℤ
or_else none default = default
or_else (some value) default = value

abbrev pub is_domain : ℕ → TrustDomain → Bool
is_domain domain_id d = d.domain_id == domain_id

abbrev pub is_state_of : ℕ → TrustDomainState → Bool
is_state_of domain_id s = s.domain_id == domain_id

-- The arguments of `create_domain`, beside the instant.
pub record NewDomain : Type 0 where
  pub domain_id : ℕ
  pub display_name : ℕ
  pub description : ℕ
  pub created_via_consent_id : ℕ
  pub initial_score_override : Option ℤ
  pub initial_confidence_override : Option ℤ

abbrev pub domain_row : NewDomain → ℕ → TrustDomain
domain_row d now = record {
  domain_id = d.domain_id;
  display_name = d.display_name;
  description = d.description;
  created_at = now;
  created_via_consent_id = d.created_via_consent_id;
  is_active = true;
  deactivated_at = none;
  deactivated_via_consent_id = none;
  initial_score_override = d.initial_score_override;
  initial_confidence_override = d.initial_confidence_override;
}

abbrev pub initial_state : NewDomain → ℕ → TrustDomainState
initial_state d now = record {
  domain_id = d.domain_id;
  score = or_else d.initial_score_override default_new_domain_score;
  confidence = or_else d.initial_confidence_override default_new_domain_confidence;
  trend = stable;
  last_recalculated_at = now;
  last_relevant_event_at = none;
}

unfoldable pub create_domain_write : NewDomain → ℕ → TrustAction TrustDomain
create_domain_write d now = do
  clash ← gets (λ t. exists (is_domain d.domain_id) t.trust_domains)
  raise_if clash constraint_failed
  modify λ t. record t { trust_domains = domain_row d now ∷ t.trust_domains }
  state_clash ← gets (λ t. exists (is_state_of d.domain_id) t.trust_domain_state)
  raise_if state_clash constraint_failed
  modify λ t. record t { trust_domain_state = initial_state d now ∷ t.trust_domain_state }
  pure (domain_row d now)

unfoldable pub create_domain : NewDomain → ℕ → Method TrustTables TrustError TrustDomain
create_domain d now =
    write_and_events (create_domain_write d now) (λ _. emit now (domain_created d.domain_id))

unfoldable pub deactivate_domain : ℕ → ℕ → ℕ → Method TrustTables TrustError ⊤
unfolding apply_transition
deactivate_domain domain_id via_consent_id now =
    write_and_events
      (modify λ t. record t {
        trust_domains =
            update_where (is_domain domain_id)
              (λ d. record d {
                is_active = false;
                deactivated_at = some now;
                deactivated_via_consent_id = some via_consent_id;
              })
              t.trust_domains;
      })
      (λ _. emit now (domain_deactivated domain_id))

unfoldable pub reactivate_domain : ℕ → ℕ → ℕ → Method TrustTables TrustError ⊤
unfolding apply_transition
reactivate_domain domain_id via_consent_id now =
    write_and_events
      (modify λ t. record t {
        trust_domains =
            update_where (is_domain domain_id)
              (λ d. record d {
                is_active = true;
                deactivated_at = none;
                deactivated_via_consent_id = none;
              })
              t.trust_domains;
      })
      (λ _. emit now (domain_reactivated domain_id via_consent_id))

unfoldable pub get_domain_state : ℕ → TrustTables → Option TrustDomainState
get_domain_state domain_id t = find (is_state_of domain_id) t.trust_domain_state

abbrev pub applies : ℕ → AppliedEvidence → Bool
applies evidence_id a = a.evidence_id == evidence_id

abbrev pub is_consumed : List AppliedEvidence → TrustEvidence → Bool
is_consumed applied e = exists (applies e.id) applied

-- `_select_unconsumed_evidence`
unfoldable pub select_unconsumed_evidence : ℕ → TrustTables → List TrustEvidence
select_unconsumed_evidence domain_id t =
    order_by (λ e. iso_key e.created_at)
      (select (λ e. e.domain_id == domain_id && not (is_consumed t.trust_recalculation_evidence e))
        t.trust_evidence)

-- `sum(effective_weight(e) for e in unconsumed)`
abbrev pub weight_of : TrustEvidence → ℤ
weight_of e = effective_weight e.raw_weight e.evidence_confidence

abbrev pub sum_weights : List TrustEvidence → ℤ
sum_weights [] = pos 0
sum_weights (e ∷ es) = weight_of e +ℤ sum_weights es

-- `for e in unconsumed`: each row is recorded as applied.
unfoldable pub apply_each : ℕ → ℕ → List TrustEvidence → TrustAction ⊤
apply_each recalculation_id now [] = pure tt
apply_each recalculation_id now (e ∷ es) = do
  clash ← gets (λ t. exists (applies e.id) t.trust_recalculation_evidence)
  raise_if clash constraint_failed
  modify λ t. record t {
    trust_recalculation_evidence =
        record {
          recalculation_id = recalculation_id;
          evidence_id = e.id;
          effective_weight = weight_of e;
          created_at = now;
        }
        ∷ t.trust_recalculation_evidence;
  }
  apply_each recalculation_id now es

abbrev pub rolling_window : ℕ
rolling_window = 180 * 86_400 * second

-- The number of rows of `_select_applied_evidence_in_window`.
unfoldable pub applied_in_window : ℕ → ℕ → TrustTables → ℕ
applied_in_window domain_id window_start t =
    count_where
      (λ e.
        e.domain_id == domain_id
        && iso_leb window_start e.created_at
        && is_consumed t.trust_recalculation_evidence e)
      t.trust_evidence

abbrev pub last_event : List TrustEvidence → ℕ → Option ℕ → Option ℕ
last_event [] now before = before
last_event (e ∷ es) now before = some now

-- `compute_confidence` of a number of rows of evidence, which takes an exponential.
module _ (compute_confidence : ℕ → ℤ) where
  unfoldable pub recalculate_state : TrustDomainState → ℕ → ℕ → TrustAction TrustRecalculation
  recalculate_state state triggered_by now = do
    unconsumed ← gets (select_unconsumed_evidence state.domain_id)
    id ← fresh_id
    let recalculation : TrustRecalculation = record {
      id = id;
      domain_id = state.domain_id;
      created_at = now;
      previous_score = state.score;
      new_score = apply_recalculation state.score (sum_weights unconsumed);
      previous_confidence = state.confidence;
      new_confidence = pos 0;
      triggered_by = triggered_by;
    }
    modify λ t. record t { trust_recalculations = recalculation ∷ t.trust_recalculations }
    apply_each id now unconsumed
    applied ← gets (applied_in_window state.domain_id (now - rolling_window))
    let new_confidence = compute_confidence applied
    modify λ t. record t {
      trust_recalculations =
          update_where (λ r. r.id == id) (λ r. record r { new_confidence = new_confidence })
            t.trust_recalculations;
      trust_domain_state =
          update_where (is_state_of state.domain_id)
            (λ s. record s {
              score = recalculation.new_score;
              confidence = new_confidence;
              last_recalculated_at = now;
              last_relevant_event_at = last_event unconsumed now state.last_relevant_event_at;
            })
            t.trust_domain_state;
    }
    pure (record recalculation { new_confidence = new_confidence })

  -- `_recalculate_domain_trust_in_transaction`
  unfoldable pub recalculate_in_transaction : ℕ → ℕ → ℕ → TrustAction TrustRecalculation
  recalculate_in_transaction domain_id triggered_by now t = elim (get_domain_state domain_id t) [
    | none ↦ err missing_row
    | some state ↦ recalculate_state state triggered_by now t
  ]

  unfoldable pub recalculate_domain_trust :
      ℕ → ℕ → ℕ → Method TrustTables TrustError TrustRecalculation
  recalculate_domain_trust domain_id triggered_by now =
      write_and_events (recalculate_in_transaction domain_id triggered_by now)
        (λ r. emit now (domain_recalculated r))
