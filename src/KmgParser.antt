-- ===== src/KmgParser.antt =====
-- Numbers with a unit: common/kmg_parser.cc. The numbers are below 2^63, and so is the sum of one with
-- half of `one_k`.
pub mod Ends
use mm_mem.Base.{
  ℕ, zero, suc, ◌+◌, ◌-◌, ◌/◌, Bool, not, Option, none, some, ◌>>=◌, List, [], ◌∷◌, ◌++◌, ltb, leb,
  ◌==◌, if◌then◌else◌, length,
}
use mm_mem.Base.Int.{ℤ, pos, negsuc}
use mm_mem.Text.{Text, codes, to_string}
use mm_mem.CommandLine.{to_string_ℤ}

-- Whether `1.0 * new_num * one_k / curr_num`, in `double`, is neither below 0.95 nor above 1.05.
abbrev pub IsNear : Type 0
IsNear = (new_num one_k curr_num : ℕ) → Bool

unfoldable pub get_unit_str : (level : ℕ) → Text
get_unit_str level =
    codes " "
    ++ (if level == 0
        then []
        else if level == 1
        then codes "K"
        else if level == 2
        then codes "M"
        else if level == 3
        then codes "G"
        else if level == 4
        then codes "T"
        else if level == 5
        then codes "P"
        else codes "?")

-- `(curr_num + half_k) / one_k` for a `curr_num` that is not zero
unfoldable pub next_num : (one_k curr_num : ℕ) → ℕ
next_num one_k curr_num = (curr_num + one_k / 2 - 1) / one_k

-- The loop on a positive `one_k`: the number that is shown, and its level.
unfoldable pub disp_loop : IsNear → (fuel one_k level curr_num : ℕ) → Option (ℕ × ℕ)
disp_loop near zero one_k level curr_num = none
disp_loop near (suc fuel) one_k level curr_num =
    let new_num = next_num one_k curr_num in
    let rest = disp_loop near fuel one_k (level + 1) new_num in
    if ltb one_k curr_num
    then (if near new_num one_k curr_num then rest else some (curr_num, level))
    else some (curr_num, level)

-- `get_disp_str_` for a positive `one_k`; a negative number is shown as it is.
unfoldable pub get_disp_str : IsNear → ℤ → (one_k start_level : ℕ) → Option Text
unfolding disp_loop get_unit_str
get_disp_str near (pos num) one_k start_level =
    disp_loop near (suc num) one_k start_level num >>= λ (shown, level).
    some (to_string shown ++ get_unit_str level)
get_disp_str near (negsuc n) one_k start_level =
    some (to_string_ℤ (negsuc n) ++ get_unit_str start_level)

unfoldable pub get_count_str : IsNear → ℤ → Option Text
get_count_str near num = get_disp_str near num 1000 0

unfoldable pub get_byte_str : IsNear → ℤ → Option Text
get_byte_str near num = get_disp_str near num 1024 0

-- The loop of `get_dims_str` with the text so far.
unfoldable pub dims_loop : IsNear → (one_k : ℕ) → Text → List ℤ → Option Text
dims_loop near one_k output [] = some output
dims_loop near one_k output (num ∷ rest) = do
  shown ← get_disp_str near num one_k 0
  dims_loop near one_k (output ++ (if ltb 0 (length output) then codes ", " else []) ++ shown) rest

unfoldable pub get_dims_str : IsNear → List ℤ → (one_k : ℕ) → Option Text
get_dims_str near nums one_k = dims_loop near one_k [] nums
