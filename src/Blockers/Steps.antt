-- ===== src/Blockers/Steps.antt =====
-- A history of calls of the services of maintenance/services_blocker.py.
use spare_part.Base.{ℕ, List, [], ◌∷◌, Option}
use spare_part.Base.Text.{Text}
use spare_part.Base.Result.{Result, ok, err}
use spare_part.Blockers.Tables.{Kind, External, Board}
use spare_part.Blockers.Status.{BlockerError}
use spare_part.Blockers.Service.{
  Opening, open_blocker, open_operational_blocker, resolve_blocker, cancel_blocker,
}
use spare_part.Blockers.Sync.{SyncEvent, SyncPayload, sync_from_external_event}

-- The calls, each with the arguments of its service.
pub data BlockerCall : Type 0 where
  opens : ℕ → Kind → Option External → Opening → BlockerCall
  pauses : ℕ → Option ℕ → Text → Option ℕ → Text → BlockerCall
  resolves : ℕ → Text → Option ℕ → ℕ → BlockerCall
  cancels : ℕ → Text → Option ℕ → ℕ → BlockerCall
  syncs : Option External → SyncEvent → Option ℕ → SyncPayload → ℕ → BlockerCall

-- A call that raises is rolled back.
abbrev pub board_after {ℓ} : {A : Type ℓ} → Board → Result BlockerError (Board × A) → Board
board_after b (ok r) = r.0
board_after b (err e) = b

unfoldable pub step : Board → BlockerCall → Board
step b (opens wo kind x o) = board_after b (open_blocker b wo kind x o)
step b (pauses wo by note source reason) =
    board_after b (open_operational_blocker b wo by note source reason)
step b (resolves k note by now) = board_after b (resolve_blocker b k note by now)
step b (cancels k reason by now) = board_after b (cancel_blocker b k reason by now)
step b (syncs x event actor payload now) =
    board_after b (sync_from_external_event b x event actor payload now)

unfoldable pub run : Board → List BlockerCall → Board
run b [] = b
run b (c ∷ cs) = run (step b c) cs
