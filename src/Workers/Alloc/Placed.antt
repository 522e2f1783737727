-- ===== src/Workers/Alloc/Placed.antt =====
-- Where the memory of a worker is placed: the policy of `allocNative_` for the `mem_type` of a packet.
use mm_mem.Base.{
  ℕ, zero, suc, ◌+◌, ◌-◌, ◌/◌, ◌%◌, ◌^◌, ◌≤◌, ◌<◌, ◌≡◌, refl, ap, ◌∙◌, Bool, false, Option, none,
  some, arith, ltb, ◌==◌, if◌then◌else◌,
}
use native.Mathlib.Nat.{mod-eq_of_lt, pow-le-pow_right, pow-succ'}
use mm_mem.Base.Int.{pos, ◌+ℤ◌}
use mm_mem.MemRegion.Region.{Policy, mpol_bind, mpol_interleave, node0, mem_policy}
use mm_mem.Workers.Packet.{node_mem_type}

-- Whether the mask has the bit `k`.
unfoldable pub has_bit : (mask k : ℕ) → Bool
has_bit mask zero = mask % 2 == 1
has_bit mask (suc k) = has_bit (mask / 2) k

-- What a policy says of the node `k`: its mode, and whether it names the node.
unfoldable pub policy_at : Option (Policy × ℕ) → (k : ℕ) → Option (Policy × Bool)
unfolding has_bit
policy_at none k = none
policy_at (some (mode, mask)) k = some (mode, has_bit mask k)

has_bit-zero : (k : ℕ) → has_bit 0 k ≡ false
unfolding has_bit
has_bit-zero zero = refl
has_bit-zero (suc k) = has_bit-zero k

-- `1 << n` has the bit `n` and no other.
has_bit-pow : (n k : ℕ) → has_bit (2 ^ n) k ≡ (k == n)
unfolding has_bit
has_bit-pow zero zero = refl
has_bit-pow zero (suc k) = has_bit-zero k ∙ ground arith
has_bit-pow (suc n) zero =
    let even : 2 ^ suc n % 2 ≡ 0 = omega (arith, pow-succ' 2 n) in rw even (ground arith)
has_bit-pow (suc n) (suc k) =
    let half : 2 ^ suc n / 2 ≡ 2 ^ n = omega (arith, pow-succ' 2 n) in
    ap (λ m. has_bit m k) half ∙ has_bit-pow n k ∙ ground arith

pow_pos : (n : ℕ) → 0 < 2 ^ n
pow_pos n =
    let le : 2 ^ 0 ≤ 2 ^ n = pow-le-pow_right (omega arith) {i = 0} (omega arith) in omega arith

-- `(1 << n) - 1` has the bits below `n`.
has_bit-ones : (n k : ℕ) → has_bit (2 ^ n - 1) k ≡ ltb k n
unfolding has_bit
has_bit-ones zero k = has_bit-zero k ∙ ground arith
has_bit-ones (suc n) zero =
    let odd : (2 ^ suc n - 1) % 2 ≡ 1 = omega (arith, pow-succ' 2 n, pow_pos n) in
    rw odd (ground arith)
has_bit-ones (suc n) (suc k) =
    let half : (2 ^ suc n - 1) / 2 ≡ 2 ^ n - 1 = omega (arith, pow-succ' 2 n, pow_pos n) in
    ap (λ m. has_bit m k) half ∙ has_bit-ones n k ∙ ground arith

node_mem_type_lem : (node : ℕ) → node_mem_type (pos node) ≡ node + 1
unfolding node_mem_type ◌+ℤ◌
node_mem_type_lem node = ground arith

bind_policy :
    (max_node node k : ℕ)
    → node < 8
    → policy_at (mem_policy max_node (node + 1)) k ≡ some (mpol_bind, k == node)
unfolding policy_at mem_policy
bind_policy max_node node k h =
    let le : 2 ^ node ≤ 2 ^ 7 = pow-le-pow_right (omega arith) {j = 7} (omega arith) in
    let mask : 2 ^ (node + 1 - node0) % 2 ^ 64 ≡ 2 ^ node =
      ap (λ n. 2 ^ n % 2 ^ 64) (omega arith) ∙ mod-eq_of_lt (omega arith) in
    let policy : mem_policy max_node (node + 1) ≡ some (mpol_bind, 2 ^ node) =
      ground (arith, mask) in
    rw policy (ap (λ b. some (mpol_bind, b)) (has_bit-pow node k))

interleave_policy :
    (max_node k : ℕ)
    → max_node < 63
    → policy_at (mem_policy max_node 9) k ≡ some (mpol_interleave, ltb k (max_node + 1))
unfolding policy_at mem_policy
interleave_policy max_node k small =
    let n = max_node + 1 in
    let le : 2 ^ n ≤ 2 ^ 63 = pow-le-pow_right (omega arith) {j = 63} (omega arith) in
    let mask : (2 ^ n + 2 ^ 64 - 1) % 2 ^ 64 ≡ 2 ^ n - 1 = omega (arith, pow_pos n) in
    rw mask (ap (λ b. some (mpol_interleave, b)) (has_bit-ones n k))

no_policy : (max_node node k : ℕ) → 8 < node → policy_at (mem_policy max_node (node + 1)) k ≡ none
unfolding policy_at mem_policy
no_policy max_node node k h =
    let policy : mem_policy max_node (node + 1) ≡ none = ground arith in rw policy refl

-- On a machine of at most 63 nodes, the memory of a packet that is configured for the node 0 to 7
-- is bound to that node and no other; for the node 8 it is interleaved over all nodes of the
-- machine, and for a node from 9 on no policy is set.
pub node_mem_type-mem_policy :
    (max_node node k : ℕ)
    → max_node < 63
    → policy_at (mem_policy max_node (node_mem_type (pos node))) k ≡ (
        if ltb node 8
        then some (mpol_bind, k == node)
        else if node == 8
        then some (mpol_interleave, ltb k (max_node + 1))
        else none)
node_mem_type-mem_policy max_node node k small =
    ap (λ t. policy_at (mem_policy max_node t) k) (node_mem_type_lem node)
    ∙ ground (
      arith,
      bind_policy max_node node k,
      no_policy max_node node k,
      interleave_policy max_node k small,
    )
