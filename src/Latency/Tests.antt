-- ===== src/Latency/Tests.antt =====
-- A pipeline of three blocks.
use unidaw.Base.{◌*◌, ◌-◌, ◌≡◌, arith}
use unidaw.Latency.{init, get_compensated_start}
use unidaw.Latency.Blocks.{get_compensated_start_lem}

get_compensated_start_lem_example : get_compensated_start (init 512 3) (5 * 512) ≡ (5 - 2) * 512
get_compensated_start_lem_example = get_compensated_start_lem 512 2 5 (omega arith)
