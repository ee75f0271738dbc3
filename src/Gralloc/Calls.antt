-- ===== src/Gralloc/Calls.antt =====
-- gr_buf_mgr.cpp: runs of calls on BufferManager, and the life of a buffer.
use platform_hardware_qcom_d.Base.{Ensures_at, ℕ, ◌≡◌, ◌<◌, some, List, [], ◌∷◌, Run}
use platform_hardware_qcom_d.Gralloc.Descriptor.{Error}
use platform_hardware_qcom_d.Gralloc.Manager.{
  PrivateHandle, Manager, Platform, int_max, retain_buffer, release_buffer, lock_buffer,
  unlock_buffer, is_buffer_imported,
}
use platform_hardware_qcom_d.Gralloc.References.{
  Call, retain, release, is_imported, unlock, lock, Step, references, IsConsistent, Refines,
}
use platform_hardware_qcom_d.Gralloc.Refinement.{
  is_imported-Refines, retain-Refines, release-Refines,
}
use platform_hardware_qcom_d.Gralloc.Locks.{unlock-Refines, lock-Refines}

-- The operation of a call.
unfoldable pub run_call : {M K : Type 0} → Platform M K → Call → Run (Manager K) Error
unfolding retain_buffer release_buffer is_buffer_imported unlock_buffer lock_buffer
run_call platform (retain p) = retain_buffer platform p
run_call platform (release p) = release_buffer platform p
run_call platform (is_imported p) = is_buffer_imported p
run_call platform (unlock p) = unlock_buffer platform p
run_call platform (lock p usage) = lock_buffer platform p usage

-- A client retains only a handle that is in memory, and fewer than INT_MAX times at once.
unfoldable pub IsLegal : {K : Type 0} → Manager K → Call → Type 0
unfolding references
IsLegal s (retain p) = (hnd : PrivateHandle) × (s.heap p ≡ some hnd) × (references s p < int_max)
IsLegal s _ = Unit

module _ {M K : Type 0} (platform : Platform M K) where
  -- From a consistent manager, every call of a client that retains only handles in memory, and none
  -- that it holds INT_MAX times already, returns, leaves a consistent manager, and is a step of the abstract table of reference counts: the
  -- first retain of a handle counts it once or is refused and changes nothing, each further one
  -- counts it once more, a release of a counted handle takes one away, one of a handle that is
  -- not counted is refused, IsBufferImported tells whether the count is positive, and Lock and
  -- Unlock change no count and refuse a handle that is not counted.
  pub run_call-Refines :
      (s : Manager K) (call : Call)
      → IsConsistent s
      → IsLegal s call
      → Refines s call (run_call platform call s)
  unfolding run_call IsLegal
  run_call-Refines s (retain p) ok (hnd, live, below) =
      retain-Refines platform p s hnd live below ok
  run_call-Refines s (release p) ok legal = release-Refines platform p s ok
  run_call-Refines s (is_imported p) ok legal = is_imported-Refines p s ok
  run_call-Refines s (unlock p) ok legal = unlock-Refines platform p s ok
  run_call-Refines s (lock p usage) ok legal = lock-Refines platform p s usage ok

-- A run of legal calls from one state to another, with the error of each.
pub data Execution {M K : Type 0} (platform : Platform M K)
    : Manager K → List Call → List Error → Manager K → Type 0 where
  stop : {s : Manager K} → Execution platform s [] [] s
  call_then :
      {s u : Manager K} {calls : List Call} {errors : List Error} (t : Manager K) (call : Call)
      (e : Error)
      → IsLegal s call
      → run_call platform call s ≡ some (e, t)
      → Execution platform t calls errors u
      → Execution platform s (call ∷ calls) (e ∷ errors) u

-- A run of the abstract table of counts.
pub data Behaviour : (ℕ → ℕ) → List Call → List Error → (ℕ → ℕ) → Type 0 where
  end : {c : ℕ → ℕ} → Behaviour c [] [] c
  step_then :
      {c d : ℕ → ℕ} {calls : List Call} {errors : List Error} (m : ℕ → ℕ) (call : Call) (e : Error)
      → Step c m call e
      → Behaviour m calls errors d
      → Behaviour c (call ∷ calls) (e ∷ errors) d

module _ {M K : Type 0} (platform : Platform M K) where
  -- Every run of legal calls from a consistent manager ends in a consistent manager and is a run of
  -- the abstract table of counts with the same calls and the same errors.
  pub Execution-Behaviour :
      {s u : Manager K} {calls : List Call} {errors : List Error}
      → Execution platform s calls errors u
      → IsConsistent s
      → IsConsistent u × Behaviour (references s) calls errors (references u)
  unfolding Refines
  Execution-Behaviour stop ok = (ok, end)
  Execution-Behaviour (call_then {s} t call e legal runs rest) ok =
      let (ok', step) =
        Ensures_at _ (run_call platform call s) e t runs
          (run_call-Refines platform s call ok legal) in
      let (done, behaviour) = Execution-Behaviour rest ok' in
      (done, step_then (references t) call e step behaviour)
