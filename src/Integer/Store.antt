-- ===== src/Integer/Store.antt =====
-- MemoryReceipts and MemoryStateStore of boatstack/kernel/conformance/integer.go, without their
-- mutexes. The receipts that the store points to are a field of it.
use boatstack.Base.{ℕ, String, not, eqb, some, List, [], ◌∷◌, ◌++◌, if◌then◌else◌}
use boatstack.Base.Int.{ℤ, ltb_ℤ}
use boatstack.Kernel.Types.{Objective, ProgramIdentity, ControlState, Receipt, next_u64}
use boatstack.Kernel.Codec.{Codec}
use boatstack.Kernel.Error.{Result, ok, err, port_failed, ◌>>=◌}
use boatstack.Kernel.Objective.{bind_objective_to}
use boatstack.Kernel.Exec.{Exec}
use boatstack.Integer.Formats.{next_int, previous_int}

-- MemoryStateStore, with the values of its MemoryReceipts
pub record MemoryStateStore : Type 0 where
  pub state : ControlState
  pub receipts : List Receipt
  pub commit_failures : ℤ
  pub commit_count : ℤ

-- MemoryReceipts.append
abbrev pub append_receipt : Receipt → List Receipt → List Receipt
append_receipt receipt values = values ++ receipt ∷ []

-- cloneState: the copies behind the pointers are the same values
abbrev pub clone_state : ControlState → ControlState
clone_state state = state

-- MemoryStateStore.Load
unfoldable pub load : String → Exec MemoryStateStore ControlState
load id s = (ok (clone_state s.state), s)

-- MemoryStateStore.BeginEffect
unfoldable pub begin_effect : ℕ → ControlState → Exec MemoryStateStore Unit
begin_effect revision target s =
    if not (eqb s.state.revision revision)
    then (err (port_failed "stale revision"), s)
    else (ok tt, record s { state = clone_state target })

-- MemoryStateStore.CommitTransition
unfoldable pub commit_transition : ℕ → ControlState → Receipt → Exec MemoryStateStore Unit
unfolding next_int previous_int
commit_transition revision target receipt s =
    if ltb_ℤ (ℤ.pos 0) s.commit_failures
    then (
      err (port_failed "simulated atomic transaction failure"),
      record s { commit_failures = previous_int s.commit_failures },
    )
    else if not (eqb s.state.revision revision)
    then (err (port_failed "stale revision"), s)
    else (
      ok tt,
      record s {
        state = clone_state target;
        commit_count = next_int s.commit_count;
        receipts = append_receipt receipt s.receipts;
      },
    )

-- MemoryStateStore.snapshot
unfoldable pub snapshot : MemoryStateStore → ControlState × ℤ
snapshot s = (clone_state s.state, s.commit_count)

-- failNextCommit
unfoldable pub fail_next_commit : MemoryStateStore → MemoryStateStore
unfolding next_int
fail_next_commit s = record s { commit_failures = next_int s.commit_failures }

-- retarget
unfoldable pub retarget : String → MemoryStateStore → MemoryStateStore
retarget id s = record s { state = record s.state { instance_id = id } }

-- bumpRevision
unfoldable pub bump_revision : MemoryStateStore → MemoryStateStore
bump_revision s = record s { state = record s.state { revision = next_u64 s.state.revision } }

-- retargetProgram
unfoldable pub retarget_program : ProgramIdentity → MemoryStateStore → MemoryStateStore
retarget_program program s = record s { state = record s.state { program = program } }

-- rebind, whose error is a panic
unfoldable pub rebind : Codec → Objective → MemoryStateStore → Result MemoryStateStore
unfolding bind_objective_to
rebind codec objective s = do
  binding ← bind_objective_to codec objective
  ok (record s { state = record s.state { objective_binding = some binding } })
