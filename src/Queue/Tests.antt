-- ===== src/Queue/Tests.antt =====
-- packages/queue/index.js on small queues.
use teraslice.Base.{ℕ, true, [], ◌∷◌, ◌==◌}
use teraslice.Queue.{Queue, empty, enqueue, remove}
use teraslice.Queue.Holds.{Holds, empty-Holds}
use teraslice.Queue.Insert.{enqueue-Holds}
use teraslice.Queue.Dequeue.{Dequeues, dequeue-Dequeues}
use teraslice.Queue.Remove.{remove-Holds}

abbrev three : Queue ℕ
three = enqueue (enqueue (enqueue empty 1) 2) 3

three-Holds : Holds three (1 ∷ 2 ∷ 3 ∷ [])
three-Holds =
    enqueue-Holds _ (1 ∷ 2 ∷ []) 3 (enqueue-Holds _ (1 ∷ []) 2 (enqueue-Holds _ [] 1 empty-Holds))

remove-Holds_example : Holds (remove true (λ x. x == 2) three) (1 ∷ 3 ∷ [])
remove-Holds_example = remove-Holds true (λ x. x == 2) three (1 ∷ 2 ∷ 3 ∷ []) three-Holds

dequeue-Dequeues_example : Dequeues three (1 ∷ 2 ∷ 3 ∷ [])
dequeue-Dequeues_example = dequeue-Dequeues three (1 ∷ 2 ∷ 3 ∷ []) three-Holds
