-- ===== src/Retrieval/Lanes/Labels.antt =====
-- What the labels of a query outcome say, and which outcomes block a refill.
use cv_match.Common.Floats.{Floats}
use cv_match.Retrieval.Lanes.{Thresholds, Measures, is_noise, is_drift}
use cv_match.Common.{Bool, ◌==◌, ◌||◌}

-- An outcome that blocks a refill, in words: nothing was returned, nothing was new, or the outcome
-- is noise or drifts away
abbrev pub is_bad : (f : Floats) → Thresholds f → Measures f → Bool
is_bad f t m =
    m.provider_returned_count == 0
    || (m.new_unique_resume_count == 0 || (is_noise f t m || is_drift f t m))
