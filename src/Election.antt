-- ===== src/Election.antt =====
-- The election of the finality authorities (apps/blockchain/pallets/grandpa_authority_election/src/lib.rs):
-- the window of the latest authors of blocks, the registered keys, and the rotation.
pub mod Window
pub mod Counts
pub mod Ranking
pub mod Elected
mod Tests
use anarchy.Base.{
  ℕ, zero, suc, ◌-◌, ◌%◌, ◌^◌, Bool, not, ◌&&◌, ◌||◌, Option, none, some, List, [], ◌∷◌, ltb, leb,
  ◌==◌, if◌then◌else◌, update, is_some, length, try_push,
}
use anarchy.Base.Dispatch.{Result, ok, err, ◌>>=◌, ◌>>◌, ensure}

-- The constants, the author of the block, and `schedule_change` of the framework's pallet, whose
-- state is `World`; `none` when it refuses. A key of the set comes with its weight.
pub record Config (World : Type 0) : Type 0 where
  pub window_size : ℕ
  pub authority_count : ℕ
  pub rotation_period : ℕ
  pub rotation_delay : ℕ
  pub find_author : World → Option ℕ
  pub schedule_change : (next : List (ℕ × ℕ)) (delay : ℕ) → World → Option World

pub data SkipReason : Type 0 where
  no_candidates schedule_change_failed : SkipReason

pub data Event : Type 0 where
  authority_key_registered authority_key_unregistered : (who : ℕ) → Event
  authority_set_rotated : (count : ℕ) → Event
  authority_set_rotation_skipped : SkipReason → Event

pub data Error : Type 0 where
  already_registered not_registered : Error

pub record State (World : Type 0) : Type 0 where
  pub recent_authors : List ℕ
  pub authority_keys : ℕ → Option ℕ
  pub world : World
  pub events : List Event

unfoldable pub register_grandpa_key :
    {World : Type 0} → (who key : ℕ) → State World → Result Error (State World)
register_grandpa_key who key s = do
  ensure (not (is_some (s.authority_keys who))) already_registered
  ok (record s {
    authority_keys = update who (some key) s.authority_keys;
    events = authority_key_registered who ∷ s.events;
  })

unfoldable pub unregister_grandpa_key :
    {World : Type 0} → (who : ℕ) → State World → Result Error (State World)
unregister_grandpa_key who s = do
  ensure (is_some (s.authority_keys who)) not_registered
  ok (record s {
    authority_keys = update who none s.authority_keys;
    events = authority_key_unregistered who ∷ s.events;
  })

-- The oldest author goes when the window is full; a vector that is full stays as it is.
unfoldable pub evict : (cap : ℕ) → List ℕ → List ℕ
evict cap [] = []
evict cap (x ∷ xs) = if leb cap (length (x ∷ xs)) then xs else x ∷ xs

abbrev pub pushed : {A : Type 0} → List A → Option (List A) → List A
pushed w none = w
pushed w (some longer) = longer

unfoldable pub push_author : (cap author : ℕ) → List ℕ → List ℕ
unfolding evict
push_author cap author w = let kept = evict cap w in pushed kept (try_push cap author kept)

-- `*counts.entry(a).or_insert(0) += 1`, in a map sorted by its keys.
unfoldable pub bump : (author : ℕ) → List (ℕ × ℕ) → List (ℕ × ℕ)
bump a [] = (a, 1) ∷ []
bump a (entry ∷ rest) =
    let later = bump a rest in
    if a == entry.0
    then (entry.0, suc entry.1) ∷ rest
    else (if ltb a entry.0 then (a, 1) ∷ (entry ∷ rest) else entry ∷ later)

unfoldable pub count_authors : List ℕ → List (ℕ × ℕ) → List (ℕ × ℕ)
count_authors [] counts = counts
count_authors (a ∷ authors) counts = count_authors authors (bump a counts)

-- More blocks come first; of equal numbers the smaller account does.
unfoldable pub ranks_before : ℕ × ℕ → ℕ × ℕ → Bool
ranks_before p q = ltb q.1 p.1 || (p.1 == q.1 && ltb p.0 q.0)

unfoldable pub insert_ranked : ℕ × ℕ → List (ℕ × ℕ) → List (ℕ × ℕ)
insert_ranked p [] = p ∷ []
insert_ranked p (q ∷ qs) =
    let later = insert_ranked p qs in if ranks_before q p then q ∷ later else p ∷ (q ∷ qs)

unfoldable pub rank : List (ℕ × ℕ) → List (ℕ × ℕ)
rank [] = []
rank (p ∷ ps) = insert_ranked p (rank ps)

-- The first `k` that have registered a key, with weight 1.
unfoldable pub select : (k : ℕ) (keys : ℕ → Option ℕ) → List (ℕ × ℕ) → List (ℕ × ℕ)
select k keys [] = []
select zero keys (p ∷ ps) = []
select (suc k) keys (p ∷ ps) = elim (keys p.0) [
  | none ↦ select (suc k) keys ps
  | some key ↦ (key, 1) ∷ select k keys ps
]

module _ {World : Type 0} (config : Config World) where
  unfoldable pub schedule : List (ℕ × ℕ) → State World → State World
  schedule [] s = record s { events = authority_set_rotation_skipped no_candidates ∷ s.events }
  schedule (x ∷ xs) s =
      scheduled (length (x ∷ xs)) (config.schedule_change (x ∷ xs) config.rotation_delay s.world)
    where
      scheduled : ℕ → Option World → State World
      scheduled count none = record s {
        events = authority_set_rotation_skipped schedule_change_failed ∷ s.events;
      }
      scheduled count (some w) = record s {
        world = w;
        events = authority_set_rotated count ∷ s.events;
      }

  unfoldable pub new_set : State World → List (ℕ × ℕ)
  new_set s =
      select config.authority_count s.authority_keys (rank (count_authors s.recent_authors []))

  unfoldable pub rotate : State World → State World
  unfolding schedule new_set
  rotate s = schedule (new_set s) s

  abbrev pub with_author : Option ℕ → State World → State World
  with_author none s = s
  with_author (some author) s = record s {
    recent_authors = push_author config.window_size author s.recent_authors;
  }

  unfoldable pub on_finalize : (n : ℕ) → State World → State World
  unfolding rotate
  on_finalize n s =
      if config.window_size == 0
      then s
      else let found = with_author (config.find_author s.world) s in
        if config.rotation_period == 0 || not (n % config.rotation_period == 0)
        then found
        else rotate found
