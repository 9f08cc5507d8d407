-- ===== src/Config/Ranks.antt =====
-- The ranks of the processes: each has exactly one role.
use raft_algorep.Base.{ℕ, ◌+◌, ◌<◌, ◌≤◌, ◌≡◌, Bool, true, false, arith}
use raft_algorep.Config.{GlobalConfig, init_config, is_controller, is_client, is_node, nb_node}

-- The roles of a rank, as the three tests of the configuration.
abbrev pub roles : GlobalConfig → ℕ → Bool × Bool × Bool
roles g r = (is_controller g r, is_node g r, is_client g r)

-- With n nodes and k clients, every rank below n + k + 1 passes exactly one of the tests
-- is_controller, is_node and is_client: rank 0 the first, ranks 1 to n the second, the rest the
-- third. Ranks from n + k + 1 on pass none, and nb_node gives back n.
pub roles-partition :
    (own n k r : ℕ)
    → let g = init_config own n k in
      ((r ≡ 0 → roles g r ≡ (true, false, false))
        × (0 < r → r ≤ n → roles g r ≡ (false, true, false))
        × (n < r → r ≤ n + k → roles g r ≡ (false, false, true))
        × (n + k < r → roles g r ≡ (false, false, false)))
      × (nb_node g ≡ n)
unfolding init_config is_controller is_client is_node nb_node
roles-partition own n k r = ground arith
