-- ===== src/WorkQueue/Tests.antt =====
-- Steals and drains at concrete inputs, after the tests of src/mpmc/work.rs.
use fanring_rs.Base.{ℕ, ◌≡◌, refl, true, some, [], ◌∷◌, ◌++◌, arith, done}
use fanring_rs.WorkQueue.Defs.{WorkQueue}
use fanring_rs.WorkQueue.Defs
use fanring_rs.WorkQueue.Steal.{push_batch-Fits, steal_batch_into-Fits, drain_into-Fits}

abbrev seven_values : WorkQueue ℕ
seven_values = record (Defs.bounded 8) { values = 0 ∷ 1 ∷ 2 ∷ 3 ∷ 4 ∷ 5 ∷ 6 ∷ [] }

steal_batch_into-Fits_example :
    Defs.steal_batch_into seven_values (Defs.bounded 8)
    ≡ done (
      some 0,
      record (Defs.bounded 8) { values = 4 ∷ 5 ∷ 6 ∷ [] },
      record (Defs.bounded 8) { values = 1 ∷ 2 ∷ 3 ∷ [] },
    )
steal_batch_into-Fits_example =
    steal_batch_into-Fits seven_values (Defs.bounded 8) 0 (1 ∷ 2 ∷ 3 ∷ 4 ∷ 5 ∷ 6 ∷ []) refl
      (omega arith)

drain_into-Fits_example :
    Defs.drain_into seven_values Defs.unbounded
    ≡ done (true, Defs.bounded 8, record Defs.unbounded { values = seven_values.values })
drain_into-Fits_example = drain_into-Fits seven_values Defs.unbounded tt

push_batch-Fits_example :
    Defs.push_batch seven_values (7 ∷ [])
    ≡ done (record seven_values { values = seven_values.values ++ (7 ∷ []) })
push_batch-Fits_example = push_batch-Fits seven_values (7 ∷ []) (omega arith)
