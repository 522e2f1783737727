-- ===== src/NumaConfig/Dumped.antt =====
-- What is printed of the topology of the machine.
use mm_mem.Base.{ℕ, zero, suc, ◌+◌, ◌≤◌, Option, List, [], ◌∷◌, arith}
use mm_mem.Base.Int.{ℤ, pos, negsuc}
use mm_mem.Base.Returns.{Returns, returns, bind}
use mm_mem.Text.{Text}
use mm_mem.KmgParser.{IsNear, get_disp_str, get_byte_str}
use mm_mem.KmgParser.Ends.{disp_loop-IsScaled}
use mm_mem.NumaConfig.{Numa, fill_map, node_cpus, query, dump_nodes, dump_mem, dump_numa}
use mm_mem.NumaConfig.Allowed.{query-allowed}

-- It is printed, without an exception or a loop that does not end.
abbrev pub Printed : Option Text → Type 0
Printed done = Returns (λ text. Unit {0}) done

get_byte_str-Printed : (near : IsNear) (num : ℤ) → Printed (get_byte_str near num)
unfolding get_byte_str get_disp_str
get_byte_str-Printed near (pos n) =
    bind (disp_loop-IsScaled near 1024 (suc n) 0 n (omega arith) (omega arith))
      λ shown h. returns tt
get_byte_str-Printed near (negsuc n) = returns tt

dump_mem-Printed : (near : IsNear) (sizes : List (ℕ × ℤ)) → Printed (dump_mem near sizes)
unfolding dump_mem
dump_mem-Printed near [] = returns tt
dump_mem-Printed near ((node, size) ∷ rest) =
    bind (get_byte_str-Printed near size)
      λ shown h. bind (dump_mem-Printed near rest) λ others h'. returns tt

dump_nodes-Printed :
    (numa : Numa) (value : ℕ → List ℕ) (n i : ℕ)
    → i + n ≤ numa.num_nodes
    → Printed (dump_nodes (query numa) (fill_map value n i))
unfolding dump_nodes fill_map
dump_nodes-Printed numa value zero i h = returns tt
dump_nodes-Printed numa value (suc n) i h =
    let (usable, found, allowed) = query-allowed numa i (omega arith) in
    rw found (bind (dump_nodes-Printed numa value n (i + 1) (omega arith)) λ others h'. returns tt)

-- Whatever libnuma answers, the dump of the topology that query gives is printed: no node that it
-- looks up is missing, and the loop over the units ends for the memory of each node.
pub dump_numa-Printed : (near : IsNear) (numa : Numa) → Printed (dump_numa near (query numa))
unfolding dump_numa query
dump_numa-Printed near numa =
    bind (dump_nodes-Printed numa (λ i. (node_cpus numa i).0) numa.num_nodes 0 (omega arith))
      λ nodes h. bind (dump_mem-Printed near (query numa).node_to_mem) λ memory h'. returns tt
