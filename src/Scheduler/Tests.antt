-- ===== src/Scheduler/Tests.antt =====
-- The scheduler at work on three processes: 0 runs, 2 and 5 are ready.
use aether_os.Base.{refl, [], ◌∷◌, arith}
use aether_os.Process.{zero_registers}
use aether_os.Scheduler.{scheduler_yield, add_process, remove_process}
use aether_os.Scheduler.Queue.{IsQueue}
use aether_os.Scheduler.Ops.{add_process-IsQueue}
use aether_os.Scheduler.Leave.{remove_process-IsQueue}
use aether_os.Scheduler.Robin.{Runs, Turn}
use aether_os.Scheduler.Fair.{scheduler_yield-Turn, yields, yields-Runs}
use aether_os.Scheduler.Three.{three, three-IsQueue, three-Runs}

add_process-IsQueue_example : IsQueue (add_process 0 three) (2 ∷ 5 ∷ 0 ∷ [])
add_process-IsQueue_example =
    add_process-IsQueue 0 three (2 ∷ 5 ∷ []) refl three-Runs.apart (omega arith) three-IsQueue

remove_process-IsQueue_example : IsQueue (remove_process 5 three) (2 ∷ [])
remove_process-IsQueue_example = remove_process-IsQueue 5 (2 ∷ []) [] three three-IsQueue

scheduler_yield-Turn_example :
    Turn 0 2 (5 ∷ []) zero_registers three (scheduler_yield zero_registers three)
scheduler_yield-Turn_example = scheduler_yield-Turn 0 2 (5 ∷ []) zero_registers three three-Runs

yields-Runs_example : Runs (yields 2 zero_registers three) 5 (0 ∷ 2 ∷ [])
yields-Runs_example = yields-Runs 5 (2 ∷ []) [] 0 zero_registers three three-Runs
