-- ===== src/Infrastructure/TimeFormat.antt =====
-- infrastructure/time_format.py: instants as the tables hold them.
-- An instant is a number of microseconds, and the tables hold its text. A whole second has no
-- fraction before its `Z`, and `.` precedes `Z`: a whole second follows every fraction of itself. The
-- key is a number that has the order of the texts; the texts themselves are in `Texts`, and `Order`
-- and `Instants` compare them.
pub mod Texts
pub mod Days
pub mod Order
pub mod Instants
use ai_coach_keyholder.Prelude.{
  ℕ, ◌+◌, ◌*◌, ◌/◌, ◌%◌, ◌≤◌, ◌≡◌, ◌≢◌, ◌↔◌, Bool, true, arith, leb, ◌==◌, if◌then◌else◌,
}

abbrev pub second : ℕ
second = 1_000_000

-- A number that stands for the text of an instant in comparisons.
unfoldable pub iso_key : ℕ → ℕ
iso_key t = t / second * (2 * second) + (if t % second == 0 then second else t % second)

-- `a <= b` between two columns, or a column and a parameter, of instants.
unfoldable pub iso_leb : ℕ → ℕ → Bool
unfolding iso_key
iso_leb a b = leb (iso_key a) (iso_key b)

-- Two whole seconds, and two instants that are no whole seconds, compare as texts the way they do as
-- instants.
pub iso_leb_alike : (a b : ℕ) → ((a % second == 0) ≡ (b % second == 0)) → iso_leb a b ≡ leb a b
unfolding iso_leb
iso_leb_alike a b h = ground arith

-- Against an instant that is not a whole second, a whole second counts as past exactly when a full
-- second has gone by since.
pub iso_leb_whole :
    (a b : ℕ) → a % second ≡ 0 → b % second ≢ 0 → (iso_leb a b ≡ true) ↔ (a + second ≤ b)
unfolding iso_leb
iso_leb_whole a b h k = ground arith
