-- ===== src/Config.antt =====
-- src/config/globalConfig.hh and globalConfig.cc: the rank of this process, and the ranges of
-- ranks. MPI ranks and the counts of processes are natural numbers; every subtraction below is
-- exact.
pub mod Ranks
use raft_algorep.Base.{ℕ, zero, suc, ◌+◌, ◌-◌, Bool, ◌&&◌, List, [], ◌∷◌, leb, ◌==◌}

-- The static fields.
pub record GlobalConfig : Type 0 where
  pub rank : ℕ
  pub nb_node_min : ℕ
  pub nb_node_max : ℕ
  pub nb_client_min : ℕ
  pub nb_client_max : ℕ

unfoldable pub init_config : ℕ → ℕ → ℕ → GlobalConfig
init_config rank nb_node nb_client =
    let node_min : ℕ = 1 in
    let node_max : ℕ = node_min + nb_node - 1 in
    let client_min : ℕ = node_max + 1 in
    record {
      rank = rank;
      nb_node_min = node_min;
      nb_node_max = node_max;
      nb_client_min = client_min;
      nb_client_max = client_min + nb_client - 1;
    }

module _ (g : GlobalConfig) where
  unfoldable pub is_controller : ℕ → Bool
  is_controller rank = rank == 0

  unfoldable pub is_client : ℕ → Bool
  is_client rank = leb g.nb_client_min rank && leb rank g.nb_client_max

  unfoldable pub is_node : ℕ → Bool
  is_node rank = leb g.nb_node_min rank && leb rank g.nb_node_max

  unfoldable pub nb_node : ℕ
  nb_node = g.nb_node_max + 1 - g.nb_node_min

-- The ranks `first`, `first + 1`, ..., as many as `count`.
unfoldable pub ranks_from : ℕ → ℕ → List ℕ
ranks_from zero first = []
ranks_from (suc count) first = first ∷ ranks_from count (first + 1)

-- for (dst = nb_node_min; dst <= nb_node_max; ++dst)
unfoldable pub node_ranks : GlobalConfig → List ℕ
unfolding nb_node ranks_from
node_ranks g = ranks_from (nb_node g) g.nb_node_min
