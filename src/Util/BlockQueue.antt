-- ===== src/Util/BlockQueue.antt =====
-- include/util/block_queue.h: a std::queue behind a mutex and a condition variable. Each function
-- holds the mutex, so it is one step, but for `take`, which may wait in between.
use csae.Prelude.{List, [], ◌∷◌, ◌++◌, Run, ok, fault}

-- The front of the queue is the head of the list.
unfoldable pub put {ℓ} : {T : Type ℓ} → T → List T → List T
put t items = items ++ (t ∷ [])

-- `take` up to the test of the size: an element, or it waits for the condition.
pub data Taken {ℓ} (T : Type ℓ) : Type ℓ where
  ready : T → Taken T
  waits : Taken T

unfoldable pub take {ℓ} : {T : Type ℓ} → List T → Taken T
take [] = waits
take (t ∷ items) = ready t

-- `take` after the wait: the size is not tested again, and `front()` of an empty queue is undefined.
unfoldable pub take_woken {ℓ} : {T : Type ℓ} → List T → Run T
take_woken [] = fault
take_woken (t ∷ items) = ok t

unfoldable pub pull {ℓ} : {T : Type ℓ} → List T → List T
pull [] = []
pull (t ∷ items) = items
