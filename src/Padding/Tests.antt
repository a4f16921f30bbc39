-- ===== src/Padding/Tests.antt =====
-- The theorems on padding at small messages.
use anarchy.Base.{ℕ, ◌≡◌, refl, none, some, List, [], ◌∷◌, length, arith}
use anarchy.Padding.{pad_iso7816_4, strip_iso7816_4, select_padding_bucket}
use anarchy.Padding.Inverse.{strip-pad, pad-strip}

strip-pad_example :
    (padded : List ℕ) × (pad_iso7816_4 (7 ∷ 128 ∷ 0 ∷ []) 8 ≡ some padded)
    × (length padded ≡ 8)
    × (strip_iso7816_4 padded ≡ some (7 ∷ 128 ∷ 0 ∷ []))
strip-pad_example = strip-pad (7 ∷ 128 ∷ 0 ∷ []) 8 (omega arith)

pad-strip_example : pad_iso7816_4 (5 ∷ []) 4 ≡ some (5 ∷ 128 ∷ 0 ∷ 0 ∷ [])
unfolding strip_iso7816_4
pad-strip_example = pad-strip (5 ∷ 128 ∷ 0 ∷ 0 ∷ []) (5 ∷ []) refl

-- The boundaries of the source's own tests.
bucket_1008 : select_padding_bucket 1008 ≡ some 1024
unfolding select_padding_bucket
bucket_1008 = refl

bucket_262129 : select_padding_bucket 262_129 ≡ none
unfolding select_padding_bucket
bucket_262129 = refl
