-- ===== src/Decisions/Ledger.antt =====
-- `idea_lifecycle_decisions/repository.py`: one row for each idempotency key. A row's JSON is kept as the
-- decision that it stands for.
use lotus_archive.Prelude.{String, ◌≡◌, none, some, ◌==◌, string_eq, if◌then◌else◌, arith}
use lotus_archive.Prelude.Dict
use lotus_archive.Prelude.Dict.{Dict}
use lotus_archive.Errors.{Result, ok, err, lifecycle_decision_conflict}
use lotus_archive.Decisions.Model.{IdeaLifecycleDecision}

abbrev pub Ledger : Type 0
Ledger = Dict (String × IdeaLifecycleDecision)

-- `SqliteIdeaLifecycleDecisionRepository.save`: the key is the table's primary key.
unfoldable pub save :
    (idempotency_key request_fingerprint : String)
    → IdeaLifecycleDecision
    → Ledger
    → Result IdeaLifecycleDecision × Ledger
save key fingerprint decision ledger = elim (Dict.lookup key ledger) [
  | none ↦ (ok decision, Dict.insert key (fingerprint, decision) ledger)
  | some (stored_fingerprint, stored) ↦
      if stored_fingerprint == fingerprint
      then (ok stored, ledger)
      else (err lifecycle_decision_conflict, ledger)
]

-- The first decision under a key stays, whatever is saved later.
pub save-keeps :
    (k : String) (row : String × IdeaLifecycleDecision) (key fingerprint : String)
    (decision : IdeaLifecycleDecision) (ledger : Ledger)
    → Dict.lookup k ledger ≡ some row
    → Dict.lookup k (save key fingerprint decision ledger).1 ≡ some row
unfolding save
save-keeps k row key fingerprint decision ledger h =
    ground (arith, Dict.lookup-insert k key (fingerprint, decision) ledger)

-- What a save answers is what the ledger then holds.
pub save-answers :
    (key fingerprint : String) (decision stored : IdeaLifecycleDecision) (ledger : Ledger)
    → (save key fingerprint decision ledger).0 ≡ ok stored
    → Dict.lookup key (save key fingerprint decision ledger).1 ≡ some (fingerprint, stored)
unfolding save
save-answers key fingerprint decision stored ledger h =
    ground (arith, Dict.lookup-insert key key (fingerprint, decision) ledger)
