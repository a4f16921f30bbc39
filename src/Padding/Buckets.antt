-- ===== src/Padding/Buckets.antt =====
-- The size of a ciphertext is the least one that fits.
use anarchy.Base.{
  ℕ, ◌+◌, ◌≡◌, ◌≤◌, ◌<◌, ◌⊎◌, inl, inr, refl, none, some, true, leb, arith, contains, Bool-cases,
  leb→le,
}
use anarchy.Padding.{select_padding_bucket, dm_padding_buckets, aes_gcm_tag_len}

largest : (c : ℕ) → contains c dm_padding_buckets ≡ true → c ≤ 262_144
unfolding contains
largest c h = ground arith

-- The size chosen for a plaintext is the least of the five sizes that holds it with the tag; none is
-- chosen exactly when it exceeds all five.
pub select_padding_bucket-least :
    (n : ℕ)
    → ((b : ℕ) × (select_padding_bucket n ≡ some b)
        × (contains b dm_padding_buckets ≡ true)
        × (n + aes_gcm_tag_len ≤ b)
        × ((c : ℕ) → contains c dm_padding_buckets ≡ true → n + aes_gcm_tag_len ≤ c → b ≤ c))
      ⊎ ((select_padding_bucket n ≡ none)
          × ((c : ℕ) → contains c dm_padding_buckets ≡ true → c < n + aes_gcm_tag_len))
unfolding select_padding_bucket contains
select_padding_bucket-least n = elim (Bool-cases (leb (n + 16) 1024)) [
  | inl a ↦ inl (1024, rw a refl, refl, leb→le _ _ a, λ c h k. ground arith)
  | inr a ↦ elim (Bool-cases (leb (n + 16) 4096)) [
    | inl b ↦ inl (4096, rw (a, b) refl, refl, leb→le _ _ b, λ c h k. ground arith)
    | inr b ↦ elim (Bool-cases (leb (n + 16) 16384)) [
      | inl d ↦ inl (16384, rw (a, b, d) refl, refl, leb→le _ _ d, λ c h k. ground arith)
      | inr d ↦ elim (Bool-cases (leb (n + 16) 65536)) [
        | inl e ↦ inl (65536, rw (a, b, d, e) refl, refl, leb→le _ _ e, λ c h k. ground arith)
        | inr e ↦ elim (Bool-cases (leb (n + 16) 262144)) [
          | inl f ↦ inl (262144, rw (a, b, d, e, f) refl, refl, leb→le _ _ f, λ c h k. ground arith)
          | inr f ↦ inr (rw (a, b, d, e, f) refl, λ c h. ground arith)
        ]
      ]
    ]
  ]
]
