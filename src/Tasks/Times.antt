-- ===== src/Tasks/Times.antt =====
-- The text of a duration names the whole seconds.
use marc_comparator.Base.{
  ℕ, ◌+◌, ◌-◌, ◌*◌, ◌/◌, ◌≤◌, ◌<◌, ◌≡◌, refl, ltb, arith, Bool-cases, inl, inr,
}
use marc_comparator.Tasks.{Duration, in_seconds, in_minutes, format_duration}

-- The seconds that a text names.
abbrev pub seconds_of : Duration → ℕ
seconds_of (in_seconds s) = s
seconds_of (in_minutes m s) = m * 60 + s

-- A text names less than sixty seconds beside the minutes, and minutes only where there are some.
abbrev pub IsNormal : Duration → Type 0
IsNormal (in_seconds s) = s < 60
IsNormal (in_minutes m s) = (1 ≤ m) × (s < 60)

-- The duration between two times is shown by the number of its whole seconds, split into minutes and
-- less than sixty seconds.
pub format_duration_lem :
    (start end : ℕ)
    → (seconds_of (format_duration start end) ≡ (end - start) / 1000)
      × IsNormal (format_duration start end)
unfolding format_duration
format_duration_lem start end =
    let n = (end - start) / 1000 in
    elim (Bool-cases (ltb n 60)) [
      | inl e ↦ rw e (refl, ground (arith, e))
      | inr e ↦ rw e (omega arith, (ground (arith, e), omega arith))
    ]
