-- ===== src/Storage/Tests/Repairs.antt =====
-- The theorems on repair, eviction, slashing and release at a fragment with four holders.
use anarchy.Base.{ℕ, ◌≡◌, refl, some, contains}
use anarchy.Base.Dispatch.{ok, commit}
use anarchy.Storage.Types.{State, KzgFragment}
use anarchy.Storage.Repair.{confirm_repair, evict_stale_holder, do_slash_node}
use anarchy.Storage.Run.{run}
use anarchy.Storage.Repairing.{Repairs, confirm_repair-Repairs}
use anarchy.Storage.Tests.{env, start, calls, bytes, held}

abbrev repaired : State ℕ ℕ
repaired = commit held (confirm_repair env 14 7 2 (bytes 32) (bytes 48) held)

repairs : confirm_repair env 14 7 2 (bytes 32) (bytes 48) held ≡ ok repaired
unfolding confirm_repair contains
repairs = refl

confirm_repair-Repairs_example :
    (f : KzgFragment) × (held.kzg_fragments 7 ≡ some f)
    × Repairs env 14 7 2 (bytes 32) (bytes 48) f held repaired
confirm_repair-Repairs_example =
    confirm_repair-Repairs env 14 7 2 (bytes 32) (bytes 48) held repairs

abbrev evicted : State ℕ ℕ
evicted = commit held (evict_stale_holder 7 held)

evicts : evict_stale_holder 7 held ≡ ok evicted
unfolding evict_stale_holder
evicts = refl

abbrev slashed_once : State ℕ ℕ
slashed_once = commit held (do_slash_node env 11 7 held)

slashes : do_slash_node env 11 7 held ≡ ok slashed_once
unfolding do_slash_node
slashes = refl

abbrev reached : State ℕ ℕ
reached = run env calls start
