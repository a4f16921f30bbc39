-- ===== src/Election/Tests.antt =====
-- The theorems on the election with a window of three blocks and a set of one.
use anarchy.Base.{
  ℕ, ◌≡◌, ◌≤◌, refl, arith, true, none, some, List, [], ◌∷◌, ◌++◌, if◌then◌else◌, ◌==◌, length,
  contains,
}
use anarchy.Election.{
  Config, State, register_grandpa_key, count_authors, rank, bump, insert_ranked, ranks_before,
  new_set, select, push_author, evict, on_finalize, rotate, schedule,
}
use anarchy.Election.Window.{
  Call, register_call, end_block, others_act, run, step, authors, last, run-recent,
}
use anarchy.Election.Counts.{AllOf, entries}
use anarchy.Election.Ranking.{IsRanked, votes, blocks_of, rank-count_authors}
use anarchy.Election.Elected.{Elects, new_set-Elects}

-- The state of the rest of the chain is the author of the block and the key of the set.
abbrev config : Config (ℕ × ℕ)
config = record {
  window_size = 3;
  authority_count = 1;
  rotation_period = 2;
  rotation_delay = 0;
  find_author = λ w. some w.0;
  schedule_change = λ next delay w. some (w.0, first next);
}
  where
    first : List (ℕ × ℕ) → ℕ
    first [] = 0
    first (x ∷ xs) = x.0

abbrev start : State (ℕ × ℕ)
start = record {
  recent_authors = 8 ∷ [];
  authority_keys = λ who. if who == 9 then some 90 else none;
  world = (7, 0);
  events = [];
}

abbrev calls : List (Call (ℕ × ℕ))
calls =
    register_call 7 70
    ∷ end_block 1
    ∷ others_act (9, 0)
    ∷ end_block 2
    ∷ others_act (7, 5)
    ∷ end_block 3
    ∷ end_block 4
    ∷ []

run-recent_example :
    (run config calls start).recent_authors ≡ last 3 ((8 ∷ []) ++ authors config calls start)
run-recent_example = run-recent config calls start (omega arith) (omega arith)

-- 7 made two of the last three blocks; its key is scheduled.
elected : (run config calls start).world ≡ (7, 70)
unfolding run step on_finalize rotate schedule push_author evict new_set select rank insert_ranked
    ranks_before count_authors bump register_grandpa_key
elected = refl

rank-count_authors_example :
    ((who : ℕ) → entries who (rank (count_authors (7 ∷ 9 ∷ 7 ∷ []) [])) ≤ 1)
    × ((who : ℕ)
        → votes who (rank (count_authors (7 ∷ 9 ∷ 7 ∷ []) [])) ≡ blocks_of who (7 ∷ 9 ∷ 7 ∷ []))
    × IsRanked (rank (count_authors (7 ∷ 9 ∷ 7 ∷ []) []))
rank-count_authors_example = rank-count_authors (7 ∷ 9 ∷ 7 ∷ [])

new_set-Elects_example :
    (length (new_set config start) ≤ 1)
    × AllOf
        (Elects (λ who. contains who (8 ∷ []) ≡ true) start.authority_keys)
        (new_set config start)
new_set-Elects_example = new_set-Elects config start
