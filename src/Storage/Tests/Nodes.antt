-- ===== src/Storage/Tests/Nodes.antt =====
-- The theorems on runs, nodes and registrations at concrete calls.
use anarchy.Base.{ℕ, ◌≡◌, refl}
use anarchy.Base.Dispatch.{ok, commit}
use anarchy.Storage.Types.{State}
use anarchy.Storage.Pow.{calculate_difficulty, verify_pow, can_register_node}
use anarchy.Storage.Nodes.{register_node, current_pow_difficulty}
use anarchy.Storage.Run.{run}
use anarchy.Storage.Holders.{IsBare, run-IsBare}
use anarchy.Storage.Registry.{IsMirrored, run-IsMirrored}
use anarchy.Storage.Agreement.{IsAgreed, run-IsAgreed}
use anarchy.Storage.Tests.{env, start, calls, peer, url}

abbrev reached : State ℕ ℕ
reached = run env calls start

run-IsBare_example : IsBare reached
run-IsBare_example = run-IsBare env 100 0 1000 calls

run-IsMirrored_example : IsMirrored reached
run-IsMirrored_example = run-IsMirrored env 100 0 1000 calls

run-IsAgreed_example : IsAgreed reached
run-IsAgreed_example = run-IsAgreed env 100 0 1000 calls

abbrev joined : State ℕ ℕ
joined = commit start (register_node env 3 peer 600 0 url start)

joins : register_node env 3 peer 600 0 url start ≡ ok joined
unfolding register_node current_pow_difficulty calculate_difficulty verify_pow can_register_node
joins = refl
