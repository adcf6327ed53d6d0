-- ===== src/Witnesses/Dashboards.antt =====
-- The buckets of an access history of frontend/src/components/dashboard/history.rs.
use wakezilla.Prelude.{ℤ, pos, negsuc, ◌≡◌, refl, List, [], ◌∷◌}
use wakezilla.Dashboard.{period_of, bucket_history}
use wakezilla.Dashboard.Entries.{counted, expected}
use wakezilla.Dashboard.Counts.{bucket_history-counted}

abbrev histories : List (List ℤ)
histories = (pos 10 ∷ pos 3600000 ∷ []) ∷ (pos 20 ∷ negsuc 0 ∷ pos 30 ∷ []) ∷ []

bucket_history_hours :
    bucket_history histories "hour"
    ≡ (negsuc 3599999, 0 ∷ 1 ∷ []) ∷ (pos 0, 1 ∷ 2 ∷ []) ∷ (pos 3600000, 1 ∷ 0 ∷ []) ∷ []
unfolding bucket_history
bucket_history_hours = refl

bucket_history-counted_example :
    counted (pos 0) 1 (bucket_history histories "hour")
    ≡ expected (period_of "hour") (pos 0) 1 histories
bucket_history-counted_example = bucket_history-counted histories "hour" (pos 0) 1
