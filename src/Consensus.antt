-- ===== src/Consensus.antt =====
-- consensus/general.go: the reward of a block.
pub mod Supply
use btm_stats.Base.{ℕ, ◌/◌, ◌^◌, ◌==◌, if◌then◌else◌}

-- subsidyReductionInterval, baseSubsidy, InitialBlockSubsidy
abbrev pub subsidy_reduction_interval : ℕ
subsidy_reduction_interval = 840000

abbrev pub base_subsidy : ℕ
base_subsidy = 41250000000

abbrev pub initial_block_subsidy : ℕ
initial_block_subsidy = 140700041250000000

-- BlockSubsidy; `a >> n` is `a / 2 ^ n`
unfoldable pub block_subsidy : ℕ → ℕ
block_subsidy height =
    if height == 0
    then initial_block_subsidy
    else base_subsidy / 2 ^ (height / subsidy_reduction_interval)
