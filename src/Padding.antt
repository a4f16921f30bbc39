-- ===== src/Padding.antt =====
-- The padding of direct messages (packages/wasm-engine/src/dm/padding.rs): the sizes of ciphertexts and
-- the ISO 7816-4 padding. A byte is a number.
pub mod Inverse
pub mod Buckets
mod Tests
use anarchy.Base.{
  ℕ, zero, suc, ◌+◌, ◌-◌, Bool, true, false, ◌||◌, not, Option, none, some, List, [], ◌∷◌, ◌++◌,
  length, leb, ◌==◌, if◌then◌else◌,
}

abbrev pub dm_padding_buckets : List ℕ
dm_padding_buckets = 1_024 ∷ 4_096 ∷ 16_384 ∷ 65_536 ∷ 262_144 ∷ []

abbrev pub aes_gcm_tag_len : ℕ
aes_gcm_tag_len = 16

-- `find` for the first size that holds a number of bytes.
unfoldable pub find_bucket : ℕ → List ℕ → Option ℕ
find_bucket needed [] = none
find_bucket needed (b ∷ rest) = if leb needed b then some b else find_bucket needed rest

unfoldable pub select_padding_bucket : ℕ → Option ℕ
unfolding find_bucket
select_padding_bucket padded_plaintext_len =
    find_bucket (padded_plaintext_len + aes_gcm_tag_len) dm_padding_buckets

abbrev pub zeros : ℕ → List ℕ
zeros zero = []
zeros (suc n) = 0 ∷ zeros n

abbrev pub take : ℕ → List ℕ → List ℕ
take zero xs = []
take (suc n) [] = []
take (suc n) (x ∷ xs) = x ∷ take n xs

abbrev pub drop : ℕ → List ℕ → List ℕ
drop zero xs = xs
drop (suc n) [] = []
drop (suc n) (x ∷ xs) = drop n xs

-- `Vec::resize` with zero bytes.
unfoldable pub resize : (new_len : ℕ) → List ℕ → List ℕ
resize new_len xs =
    if leb new_len (length xs) then take new_len xs else xs ++ zeros (new_len - length xs)

unfoldable pub pad_iso7816_4 : (input : List ℕ) (target_len : ℕ) → Option (List ℕ)
unfolding resize
pad_iso7816_4 input target_len =
    if leb target_len (length input) then none else some (resize target_len (input ++ 128 ∷ []))

-- `rposition` of the byte 0x80: where it stands last.
unfoldable pub rposition : List ℕ → Option ℕ
rposition [] = none
rposition (b ∷ rest) = elim (rposition rest) [
  | some i ↦ some (suc i)
  | none ↦ if b == 128 then some 0 else none
]

unfoldable pub any_nonzero : List ℕ → Bool
any_nonzero [] = false
any_nonzero (b ∷ rest) = not (b == 0) || any_nonzero rest

unfoldable pub strip_iso7816_4 : (padded : List ℕ) → Option (List ℕ)
unfolding rposition any_nonzero
strip_iso7816_4 padded = elim (rposition padded) [
  | none ↦ none
  | some last_80 ↦
      if any_nonzero (drop (suc last_80) padded) then none else some (take last_80 padded)
]
