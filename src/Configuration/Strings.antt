-- ===== src/Configuration/Strings.antt =====
-- What `Configuration` prints for a number: `get_str_access_pattern` and the like of
-- cpu_micro/lib_configuration.cc.
use mm_mem.Base.{ℕ, ◌==◌, if◌then◌else◌}
use mm_mem.Text.{Text, codes}

unfoldable pub get_str_access_pattern : ℕ → Text
get_str_access_pattern x =
    if x == 0
    then codes "sequential"
    else if x == 1
    then codes "random in chunk"
    else if x == 2
    then codes "random in full region"
    else codes "invalid"

unfoldable pub get_str_access_pattern_short : ℕ → Text
get_str_access_pattern_short x =
    if x == 0
    then codes "Sequential"
    else if x == 1
    then codes "RandomInChunk"
    else if x == 2
    then codes "FullRandom"
    else codes "invalid"

unfoldable pub get_str_huge_page : ℕ → Text
get_str_huge_page x =
    if x == 0
    then codes "No huge page"
    else if x == 1
    then codes "2MB huge page"
    else if x == 2
    then codes "512MB huge page"
    else if x == 3
    then codes "1GB huge page"
    else if x == 4
    then codes "16GB huge page"
    else codes "invalid"

-- 100 is `read_write_mix_sweep`.
unfoldable pub get_str_rw_mix : ℕ → Text
get_str_rw_mix x =
    if x == 0
    then codes "all reads"
    else if x == 1
    then codes "1:1 read/write"
    else if x == 2
    then codes "2:1 read/write"
    else if x == 3
    then codes "3:1 read/write"
    else if x == 100
    then codes "sweep read/write ratio"
    else codes "invalid"
