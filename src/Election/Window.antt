-- ===== src/Election/Window.antt =====
-- The window of the latest authors is the end of the list of all authors.
use anarchy.Base.{
  ℕ, suc, ◌≡◌, ◌≤◌, ◌<◌, refl, sym, ◌∙◌, ap, false, arith, Option, none, some, List, [], ◌∷◌, ◌++◌,
  ltb, leb, ◌==◌, if◌then◌else◌, length, inl, inr, Bool-cases, Option-cases, not, ◌||◌, ◌%◌,
}
use anarchy.Base.Dispatch.{commit}
use anarchy.Election.{
  Config, State, evict, push_author, with_author, rotate, schedule, on_finalize,
  register_grandpa_key, unregister_grandpa_key, new_set,
}

-- The last `n` of a list, or all of it where it is shorter.
unfoldable pub last : (n : ℕ) → List ℕ → List ℕ
last n [] = []
last n (x ∷ xs) = let rest = last n xs in if ltb (length xs) n then x ∷ xs else rest

length-append : (xs : List ℕ) (a : ℕ) → length (xs ++ a ∷ []) ≡ suc (length xs)
length-append [] a = refl
length-append (x ∷ xs) a = ground (arith, length-append xs a)

length_grows : (xs ys : List ℕ) → length xs ≤ length (xs ++ ys)
length_grows [] ys = omega arith
length_grows (x ∷ xs) ys = ground (arith, length_grows xs ys)

last_all : (n : ℕ) (xs : List ℕ) → length xs ≤ n → last n xs ≡ xs
unfolding last
last_all n [] h = refl
last_all n (x ∷ xs) h = ground arith

last-append : (n : ℕ) (xs ys : List ℕ) → last n (last n xs ++ ys) ≡ last n (xs ++ ys)
unfolding last
last-append n [] ys = refl
last-append n (x ∷ xs) ys = elim (Bool-cases (ltb (length xs) n)) [
  | inl e ↦ rw e refl
  | inr e ↦
      let longer : ltb (length (xs ++ ys)) n ≡ false = ground (arith, length_grows xs ys) in
      rw (e, longer) (last-append n xs ys)
]

append_nil : (xs : List ℕ) → xs ++ [] ≡ xs
append_nil [] = refl
append_nil (x ∷ xs) = ap (λ l. x ∷ l) (append_nil xs)

append_assoc : (xs ys zs : List ℕ) → (xs ++ ys) ++ zs ≡ xs ++ (ys ++ zs)
append_assoc [] ys zs = refl
append_assoc (x ∷ xs) ys zs = ap (λ l. x ∷ l) (append_assoc xs ys zs)

length-last : (n : ℕ) (xs : List ℕ) → length (last n xs) ≤ n
unfolding last
length-last n [] = omega arith
length-last n (x ∷ xs) = ground (arith, length-last n xs)

push_author-last :
    (cap a : ℕ) (w : List ℕ)
    → 0 < cap
    → length w ≤ cap
    → push_author cap a w ≡ last cap (w ++ a ∷ [])
unfolding push_author evict last
push_author-last cap a [] h k = ground arith
push_author-last cap a (x ∷ xs) h k = elim (Bool-cases (leb cap (length (x ∷ xs)))) [
  | inl full ↦ rw full (ground (arith, length-append xs a, last_all cap (xs ++ a ∷ [])))
  | inr free ↦ rw free (ground (arith, length-append xs a))
]

-- What can happen: the two calls, the end of a block, and a change of the rest of the chain.
pub data Call (World : Type 0) : Type 0 where
  register_call : (who key : ℕ) → Call World
  unregister_call : (who : ℕ) → Call World
  end_block : (n : ℕ) → Call World
  others_act : World → Call World

module _ {World : Type 0} (config : Config World) where
  unfoldable pub step : Call World → State World → State World
  step (register_call who key) s = commit s (register_grandpa_key who key s)
  step (unregister_call who) s = commit s (unregister_grandpa_key who s)
  step (end_block n) s = on_finalize config n s
  step (others_act world) s = record s { world = world }

  unfoldable pub run : List (Call World) → State World → State World
  run [] s = s
  run (c ∷ cs) s = run cs (step c s)

  abbrev pub found : Option ℕ → List ℕ
  found none = []
  found (some a) = a ∷ []

  -- The authors of the blocks that end in a sequence of calls, in order.
  unfoldable pub authors : List (Call World) → State World → List ℕ
  authors [] s = []
  authors (end_block n ∷ cs) s =
      found (config.find_author s.world) ++ authors cs (step (end_block n) s)
  authors (c ∷ cs) s = authors cs (step c s)

  schedule-recent :
      (set : List (ℕ × ℕ)) (s : State World)
      → (schedule config set s).recent_authors ≡ s.recent_authors
  unfolding schedule
  schedule-recent [] s = refl
  schedule-recent (x ∷ set) s =
      elim (Option-cases (config.schedule_change (x ∷ set) config.rotation_delay s.world)) [
        | inl e ↦ rw e refl
        | inr (w, e) ↦ rw e refl
      ]

  rotate-recent : (s : State World) → (rotate config s).recent_authors ≡ s.recent_authors
  unfolding rotate
  rotate-recent s = schedule-recent (new_set config s) s

  on_finalize-recent :
      (n : ℕ) (s : State World)
      → 0 < config.window_size
      → (on_finalize config n s).recent_authors
        ≡ (with_author config (config.find_author s.world) s).recent_authors
  unfolding on_finalize
  on_finalize-recent n s h =
      let used : (config.window_size == 0) ≡ false = ground arith in
      elim (Bool-cases (config.rotation_period == 0 || not (n % config.rotation_period == 0))) [
        | inl e ↦ rw (used, e) refl
        | inr e ↦ rw (used, e) (rotate-recent (with_author config (config.find_author s.world) s))
      ]

  with_author-recent :
      (o : Option ℕ) (s : State World)
      → 0 < config.window_size
      → length s.recent_authors ≤ config.window_size
      → (with_author config o s).recent_authors
        ≡ last config.window_size (s.recent_authors ++ found o)
  with_author-recent none s h k =
      rw (append_nil s.recent_authors) (sym (last_all config.window_size s.recent_authors k))
  with_author-recent (some a) s h k = push_author-last config.window_size a s.recent_authors h k

  step-recent :
      (n : ℕ) (s : State World)
      → 0 < config.window_size
      → length s.recent_authors ≤ config.window_size
      → (step (end_block n) s).recent_authors
        ≡ last config.window_size (s.recent_authors ++ found (config.find_author s.world))
  unfolding step
  step-recent n s h k =
      on_finalize-recent n s h ∙ with_author-recent (config.find_author s.world) s h k

  register-recent :
      (who key : ℕ) (s : State World)
      → (step (register_call who key) s).recent_authors ≡ s.recent_authors
  unfolding step register_grandpa_key
  register-recent who key s = ground arith

  unregister-recent :
      (who : ℕ) (s : State World) → (step (unregister_call who) s).recent_authors ≡ s.recent_authors
  unfolding step unregister_grandpa_key
  unregister-recent who s = ground arith

  -- With a window that is not empty: after any calls and blocks, the window is the end of the list
  -- of the authors it had and of all that were found since, in order.
  pub run-recent :
      (cs : List (Call World)) (s : State World)
      → 0 < config.window_size
      → length s.recent_authors ≤ config.window_size
      → (run cs s).recent_authors ≡ last config.window_size (s.recent_authors ++ authors cs s)
  unfolding run authors step
  run-recent [] s h k =
      rw (append_nil s.recent_authors) (sym (last_all config.window_size s.recent_authors k))
  run-recent (end_block n ∷ cs) s h k =
      let t = step (end_block n) s in
      let new = found (config.find_author s.world) in
      let e : t.recent_authors ≡ last config.window_size (s.recent_authors ++ new) =
        step-recent n s h k in
      let bound : length t.recent_authors ≤ config.window_size =
        rw e (length-last config.window_size (s.recent_authors ++ new)) in
      run-recent cs t h bound
      ∙ (ap (λ w. last config.window_size (w ++ authors cs t)) e
          ∙ (last-append config.window_size (s.recent_authors ++ new) (authors cs t)
              ∙ ap (last config.window_size) (append_assoc s.recent_authors new (authors cs t))))
  run-recent (register_call who key ∷ cs) s h k =
      let same = register-recent who key s in
      run-recent cs (step (register_call who key) s) h (rw same k)
      ∙ ap (λ w. last config.window_size (w ++ authors cs (step (register_call who key) s))) same
  run-recent (unregister_call who ∷ cs) s h k =
      let same = unregister-recent who s in
      run-recent cs (step (unregister_call who) s) h (rw same k)
      ∙ ap (λ w. last config.window_size (w ++ authors cs (step (unregister_call who) s))) same
  run-recent (others_act world ∷ cs) s h k = run-recent cs (step (others_act world) s) h k
