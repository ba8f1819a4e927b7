-- ===== src/Prelude/Rows.antt =====
-- Rows of a table under updates: what stays, what is counted, and what a key finds.
pub mod Kept
pub mod Keys
pub use ai_coach_keyholder.Prelude.Rows.Kept.{
  All-map, All-both, All-all, All-update_where, All-select, All-latest, All-find, latest-none,
  count_where-update_where, count_where-update_where_le, select-nil, count_where_none,
  count_where-eq, All-of_select, All-of_order_by, select_none,
}
pub use ai_coach_keyholder.Prelude.Rows.Keys.{
  has_key, Distinct, exists_fresh, exists_below, find_self, found_rows, exists-update_where,
  Distinct-update_where, find-update_where, find-update_where_any, find-update_where_field,
  find_behind, count_where-update_one,
}
