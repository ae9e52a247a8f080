-- ===== src/Semaphore/Tests.antt =====
-- The semaphore on concrete calls.
use hyperdht.Prelude.{◌≡◌, refl, true, List, [], ◌∷◌}
use hyperdht.Semaphore.{Semaphore, construct, wait, signal}
use hyperdht.Semaphore.Laws.{Call, waits, signals, run, step, IsFair, run-IsFair}

abbrev calls : List Call
calls = waits 1 ∷ waits 2 ∷ waits 3 ∷ signals ∷ []

run-IsFair_example : IsFair (run calls (construct 1))
run-IsFair_example = run-IsFair 1 calls

abbrev queued : Semaphore
queued = run (waits 1 ∷ waits 2 ∷ waits 3 ∷ []) (construct 1)

second_is_next : (signal queued).settled ≡ (2, true) ∷ []
unfolding signal run step wait construct
second_is_next = refl
