-- ===== src/Main/Roles.antt =====
-- What main makes of its arguments.
use raft_algorep.Base.{
  ℕ, ◌+◌, ◌-◌, ◌≤◌, pos, ◌+ℤ◌, ◌-ℤ◌, leb_ℤ, eq_ℤ, int_max, Bool, true, false, not, ◌&&◌, [], ◌∷◌,
  Option, Outcome, ok, ◌>>=◌, leb, ltb, ◌==◌, if◌then◌else◌, ◌≡◌, refl, Text, arith, int_laws,
}
use raft_algorep.Config.{GlobalConfig, init_config}
use raft_algorep.Controller.{in_range, atoi}
use raft_algorep.Controller.Numbers.{decimal, AllDigits, number_read}
use raft_algorep.Main.{
  IntConfig, init_int_config, Role, controller_role, node_role, client_role, exits, runs, own_role,
  init_nb_process, add_int, sub_int, check_counts, main,
}

-- A configuration of natural numbers, as `int`s.
abbrev pub int_config : GlobalConfig → IntConfig
int_config g = record {
  rank = pos g.rank;
  nb_node_min = pos g.nb_node_min;
  nb_node_max = pos g.nb_node_max;
  nb_client_min = pos g.nb_client_min;
  nb_client_max = pos g.nb_client_max;
}

-- The role of a rank among n nodes.
abbrev pub role_of : ℕ → ℕ → Role
role_of n rank =
    if rank == 0 then controller_role else if leb rank n then node_role else client_role

add_pos : (a b : ℕ) → pos a +ℤ pos b ≡ pos (a + b)
add_pos a b = omega int_laws

sub_pos : (a b : ℕ) → b ≤ a → pos a -ℤ pos b ≡ pos (a - b)
sub_pos a b h = omega int_laws

in_range-small : (a : ℕ) → leb_ℤ (pos a) int_max ≡ true → in_range (pos a) ≡ true
in_range-small a small = ground (arith, small)

add_int-small :
    (a b : ℕ) → leb_ℤ (pos (a + b)) int_max ≡ true → add_int (pos a) (pos b) ≡ ok (pos (a + b))
add_int-small a b small = rw (add_pos a b, in_range-small (a + b) small) refl

sub_int-small :
    (a b : ℕ)
    → b ≤ a
    → leb_ℤ (pos (a - b)) int_max ≡ true
    → sub_int (pos a) (pos b) ≡ ok (pos (a - b))
sub_int-small a b h small = rw (sub_pos a b h, in_range-small (a - b) small) refl

init_int_config-agrees :
    (rank n k : ℕ)
    → leb_ℤ (pos (n + k + 1)) int_max ≡ true
    → init_int_config (pos rank) (pos n) (pos k) ≡ ok (int_config (init_config rank n k))
unfolding init_int_config init_config
init_int_config-agrees rank n k small =
    rw
      (
        add_int-small 1 n (ground (arith, small)),
        sub_int-small (1 + n) 1 (omega arith) (ground (arith, small)),
        add_int-small (1 + n - 1) 1 (ground (arith, small)),
        add_int-small (1 + n - 1 + 1) k (ground (arith, small)),
        sub_int-small (1 + n - 1 + 1 + k) 1 (omega arith) (ground (arith, small)),
      )
      refl

own_role-role_of : (rank n k : ℕ) → own_role (int_config (init_config rank n k)) ≡ role_of n rank
unfolding own_role init_config
own_role-role_of rank n k = ground arith

eq_ℤ-pos : (a b : ℕ) → eq_ℤ (pos a) (pos b) ≡ (a == b)
eq_ℤ-pos a b = ground arith

checks_agree :
    (equal : Bool) (size : ℕ) (m : Outcome IntConfig) (g : IntConfig) (r : Role)
    → m ≡ ok g
    → own_role g ≡ r
    → (if not equal
        then ok (exits 1)
        else if ltb size 2
        then ok (exits 1)
        else (m >>= λ x. ok (runs (own_role x) x)))
      ≡ ok (if equal && leb 2 size then runs r g else exits 1)
checks_agree false size m g r h e = refl
checks_agree true size m g r h e = rw (h, e) (ground arith)

check_counts-counts :
    (rank size n k : ℕ)
    → leb_ℤ (pos (n + k + 1)) int_max ≡ true
    → check_counts (pos n) (pos k) rank size
      ≡ ok (
          if (size == n + k + 1) && leb 2 size
          then runs (role_of n rank) (int_config (init_config rank n k))
          else exits 1)
unfolding check_counts
check_counts-counts rank size n k small =
    rw
      (
        add_int-small n k (ground (arith, small)),
        add_int-small (n + k) 1 small,
        eq_ℤ-pos size (n + k + 1),
      )
      (checks_agree (size == n + k + 1) size _ (int_config (init_config rank n k)) (role_of n rank)
        (init_int_config-agrees rank n k small) (own_role-role_of rank n k))

atoi-digits :
    (c : ℕ) (cs : Text)
    → AllDigits (c ∷ cs)
    → leb_ℤ (pos (decimal 0 (c ∷ cs))) int_max ≡ true
    → atoi (c ∷ cs) ≡ ok (pos (decimal 0 (c ∷ cs)))
unfolding atoi
atoi-digits c cs digits small =
    rw (number_read c cs digits, in_range-small (decimal 0 (c ∷ cs)) small) refl

-- If main is given the two counts in decimal digits, n nodes and k clients with n + k + 1 at most
-- the largest int, then it runs a role exactly if the number of slots is n + k + 1 and at least 2,
-- and otherwise exits with status 1; the role is controller for rank 0, node for ranks 1 to n and
-- client for the others, and the configuration is that of the ranges of ranks, as ints.
pub main-counts :
    (file : Text → Option Text) (rank size c d : ℕ) (cs ds : Text)
    → AllDigits (c ∷ cs)
    → AllDigits (d ∷ ds)
    → let n = decimal 0 (c ∷ cs) in
      let k = decimal 0 (d ∷ ds) in
      leb_ℤ (pos (n + k + 1)) int_max ≡ true
      → main file ((c ∷ cs) ∷ (d ∷ ds) ∷ []) rank size
        ≡ ok (
            if (size == n + k + 1) && leb 2 size
            then runs (role_of n rank) (int_config (init_config rank n k))
            else exits 1)
unfolding main init_nb_process
main-counts file rank size c d cs ds c_digits d_digits small =
    rw
      (
        atoi-digits c cs c_digits (ground (arith, small)),
        atoi-digits d ds d_digits (ground (arith, small)),
      )
      (check_counts-counts rank size (decimal 0 (c ∷ cs)) (decimal 0 (d ∷ ds)) small)
