-- ===== src/Collector/CollectorApp/Run/Ends.antt =====
-- The two outcomes of a round of collector/core/CollectorApp.cpp.
use loggerlib.Collector.CollectorApp.{CollectorApp}
use loggerlib.Collector.CollectorApp.Run.{goes_on, returns, Round, Loop, CollectorApp, ExitCode}
use loggerlib.Prelude.{◌≡◌, refl, ◌⊎◌, inl, inr}

pub Round-cases :
    {S : Type 0} (r : Round S)
    → ((l : Loop S) × (r ≡ goes_on l))
      ⊎ ((code : ExitCode) × (app : CollectorApp) × (s : S) × (r ≡ returns code app s))
Round-cases (goes_on l) = inl (l, refl)
Round-cases (returns code app s) = inr (code, app, s, refl)
