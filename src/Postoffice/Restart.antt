-- ===== src/Postoffice/Restart.antt =====
-- `Start` after `Finalize`, and a second `Start`.
use step_mesh.Prelude.Result.{Result, ok, ◌>>=◌}
use step_mesh.Postoffice.{Postoffice}
use step_mesh.Postoffice.Start.{init_node_ids}

abbrev build : Result Postoffice → Result Postoffice
build r = r >>= (λ p. ok (record p { node_ids = init_node_ids p; init_stage = 1 }))
