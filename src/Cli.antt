-- ===== src/Cli.antt =====
-- cmd/tumbleweed-cli/main.go: rearrangeArgs. An argument is a string, as a list of bytes.
pub mod Decimal
pub mod Flags
pub mod Commands
pub mod Arranged
pub mod Address
pub mod EndToEnd
pub mod Laws
mod Tests
use tumbleweed.Base.{ℕ, List, [], ◌∷◌, ◌++◌, Bool, ◌||◌, length, take, if◌then◌else◌}
use tumbleweed.Broker.Names.{Name, same_name}

-- "-addr" and "--addr", and the two with "=" behind them
abbrev pub addr_flag : Name
addr_flag = 45 ∷ 97 ∷ 100 ∷ 100 ∷ 114 ∷ []

abbrev pub long_addr_flag : Name
long_addr_flag = 45 ∷ 45 ∷ 97 ∷ 100 ∷ 100 ∷ 114 ∷ []

abbrev pub addr_prefix : Name
addr_prefix = 45 ∷ 97 ∷ 100 ∷ 100 ∷ 114 ∷ 61 ∷ []

abbrev pub long_addr_prefix : Name
long_addr_prefix = 45 ∷ 45 ∷ 97 ∷ 100 ∷ 100 ∷ 114 ∷ 61 ∷ []

-- `strings.HasPrefix`
abbrev pub has_prefix : Name → Name → Bool
has_prefix arg prefix = same_name (take (length prefix) arg) prefix

unfoldable pub is_addr : Name → Bool
is_addr arg = same_name arg addr_flag || same_name arg long_addr_flag

unfoldable pub is_addr_value : Name → Bool
is_addr_value arg = has_prefix arg addr_prefix || has_prefix arg long_addr_prefix

-- an argument that is no "-addr" goes to the flags or to the others
abbrev pub placed : Name → List Name × List Name → List Name × List Name
placed arg (flags, others) =
    if is_addr_value arg then (arg ∷ flags, others) else (flags, arg ∷ others)

abbrev pub placed_pair : Name → Name → List Name × List Name → List Name × List Name
placed_pair arg value (flags, others) = (arg ∷ (value ∷ flags), others)

-- The loop: the global flags and the other arguments, each in their order.
unfoldable pub sort_args : List Name → List Name × List Name
sort_args [] = ([], [])
sort_args (arg ∷ []) = if is_addr arg then (arg ∷ [], []) else placed arg ([], [])
sort_args (arg ∷ value ∷ rest) =
    let pair = placed_pair arg value (sort_args rest) in
    let single = placed arg (sort_args (value ∷ rest)) in if is_addr arg then pair else single

unfoldable pub rearrange_args : List Name → List Name
rearrange_args args = let (flags, others) = sort_args args in flags ++ others
