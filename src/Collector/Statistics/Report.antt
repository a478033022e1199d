-- ===== src/Collector/Statistics/Report.antt =====
-- `formatReport` of collector/core/Statistics.cpp.
use loggerlib.Collector.Statistics.{Snapshot}
use loggerlib.Common.Text.Numbers.{to_string}
use loggerlib.Logger.LogLevel.{level_to_string, from_index}
use loggerlib.Prelude.{flatten, ℕ, ◌+◌, List, [], ◌∷◌, ◌++◌, Bytes, codes, ◌==◌, if◌then◌else◌}

-- `for (i = 0; i < byLevel.size(); ++i)`
unfoldable pub format_levels : ℕ → List ℕ → Bytes
format_levels i [] = []
format_levels i (n ∷ rest) =
    codes " "
    ++ (level_to_string (from_index i)
        ++ (codes " " ++ (to_string n ++ format_levels (i + 1) rest)))

-- The line of the lengths.
unfoldable pub format_lengths : {Double : Type 0} → (Double → Bytes) → Snapshot Double → Bytes
format_lengths fixed snapshot =
    if snapshot.total == 0
    then codes " min -  max -  average -\n"
    else flatten (
        codes " min "
        ∷ to_string snapshot.min_length
        ∷ codes "  max "
        ∷ to_string snapshot.max_length
        ∷ codes "  average "
        ∷ fixed snapshot.average_length
        ∷ codes "\n"
        ∷ [])

-- `fixed` prints a double as `std::fixed << std::setprecision(1)` does.
unfoldable pub format_report :
    {Double : Type 0} → (Double → Bytes) → Snapshot Double → Bytes → Bytes
unfolding format_levels format_lengths
format_report fixed snapshot reason = flatten (
    codes "--- statistics ("
    ∷ reason
    ∷ codes ") ---\ntotal "
    ∷ to_string snapshot.total
    ∷ codes "  last hour "
    ∷ to_string snapshot.last_hour
    ∷ codes "  malformed "
    ∷ to_string snapshot.malformed
    ∷ codes "\nby level "
    ∷ format_levels 0 snapshot.by_level
    ∷ codes "\nlength   "
    ∷ format_lengths fixed snapshot
    ∷ [])
