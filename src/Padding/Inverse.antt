-- ===== src/Padding/Inverse.antt =====
-- Padding and stripping are inverse to each other.
use anarchy.Base.{
  ℕ, zero, suc, ◌+◌, ◌-◌, ◌≡◌, ◌<◌, ◌≤◌, refl, sym, ap, ◌∙◌, false, none, some, List, [], ◌∷◌, ◌++◌,
  length, length-append, leb, ◌==◌, if◌then◌else◌, arith, Option-cases, Bool-cases, inl, inr,
  lt→leb,
}
use anarchy.Padding.{
  pad_iso7816_4, strip_iso7816_4, resize, rposition, any_nonzero, zeros, take, drop,
}

append_assoc : (xs ys zs : List ℕ) → (xs ++ ys) ++ zs ≡ xs ++ (ys ++ zs)
append_assoc [] ys zs = refl
append_assoc (x ∷ xs) ys zs = ap (λ l. x ∷ l) (append_assoc xs ys zs)

-- A padded message: the input, the terminator and zeros up to the length.
pub framed : List ℕ → ℕ → List ℕ
framed input n = input ++ 128 ∷ zeros n

append_nil : (xs : List ℕ) → xs ++ [] ≡ xs
append_nil [] = refl
append_nil (x ∷ xs) = ap (λ l. x ∷ l) (append_nil xs)

take-length : (xs : List ℕ) → take (length xs) xs ≡ xs
take-length [] = refl
take-length (x ∷ xs) = ap (λ l. x ∷ l) (take-length xs)

sub_self : (n : ℕ) → n - n ≡ 0
sub_self n = omega arith

-- Growing a vector appends zeros.
resize-zeros : (n : ℕ) (xs : List ℕ) → length xs ≤ n → resize n xs ≡ xs ++ zeros (n - length xs)
unfolding resize
resize-zeros n xs h = elim (Bool-cases (leb n (length xs))) [
  | inr longer ↦ rw longer refl
  | inl whole ↦
      let same : n ≡ length xs = ground arith in
      rw (whole, same, take-length xs, sub_self (length xs)) (sym (append_nil xs))
]

one_more : (xs : List ℕ) (b : ℕ) → length (xs ++ b ∷ []) ≡ suc (length xs)
one_more xs b = omega (arith, length-append xs (b ∷ []))

pad-framed :
    (input : List ℕ) (target : ℕ)
    → length input < target
    → pad_iso7816_4 input target ≡ some (framed input (target - suc (length input)))
unfolding pad_iso7816_4 framed
pad-framed input target h =
    rw
      (
        lt→leb _ _ h,
        resize-zeros target (input ++ 128 ∷ []) (omega (arith, one_more input 128)),
        one_more input 128,
      )
      (ap some (append_assoc input (128 ∷ []) (zeros (target - suc (length input)))))

rposition-zeros : (n : ℕ) → rposition (zeros n) ≡ none
unfolding rposition
rposition-zeros zero = refl
rposition-zeros (suc n) = rw (rposition-zeros n, rposition) refl

rposition-framed : (input : List ℕ) (n : ℕ) → rposition (framed input n) ≡ some (length input)
unfolding rposition framed
rposition-framed [] n = rw (rposition-zeros n, rposition) refl
rposition-framed (b ∷ input) n = rw (rposition-framed input n, rposition) refl

nonzero-zeros : (n : ℕ) → any_nonzero (zeros n) ≡ false
unfolding any_nonzero
nonzero-zeros zero = refl
nonzero-zeros (suc n) = nonzero-zeros n

drop-framed : (input : List ℕ) (n : ℕ) → drop (suc (length input)) (framed input n) ≡ zeros n
unfolding framed
drop-framed [] n = refl
drop-framed (b ∷ input) n = drop-framed input n

take-framed : (input : List ℕ) (n : ℕ) → take (length input) (framed input n) ≡ input
unfolding framed
take-framed [] n = refl
take-framed (b ∷ input) n = ap (λ l. b ∷ l) (take-framed input n)

strip-framed : (input : List ℕ) (n : ℕ) → strip_iso7816_4 (framed input n) ≡ some input
unfolding strip_iso7816_4
strip-framed input n =
    rw
      (
        strip_iso7816_4,
        rposition-framed input n,
        drop-framed input n,
        nonzero-zeros n,
        take-framed input n,
      )
      refl

length-zeros : (n : ℕ) → length (zeros n) ≡ n
length-zeros zero = refl
length-zeros (suc n) = omega (arith, length-zeros n)

length-framed : (input : List ℕ) (n : ℕ) → length (framed input n) ≡ length input + suc n
unfolding framed
length-framed input n = omega (arith, length-append input (128 ∷ zeros n), length-zeros n)

-- Bytes that are all zero are those zeros.
zeros_only : (bytes : List ℕ) → any_nonzero bytes ≡ false → bytes ≡ zeros (length bytes)
unfolding any_nonzero
zeros_only [] h = refl
zeros_only (b ∷ rest) h =
    let first : b ≡ 0 = ground (arith, h) in
    let others : any_nonzero rest ≡ false = ground (arith, h) in
    rw first (ap (λ l. 0 ∷ l) (zeros_only rest others))

-- The last 0x80 splits the bytes.
split_at_last :
    (bytes : List ℕ) (i : ℕ)
    → rposition bytes ≡ some i
    → (bytes ≡ take i bytes ++ 128 ∷ drop (suc i) bytes) × (length (take i bytes) ≡ i)
unfolding rposition
split_at_last [] i h = absurd (ground arith)
split_at_last (b ∷ rest) i h = elim (Option-cases (rposition rest)) [
  | inl last ↦
      let here : (if b == 128 then some 0 else none) ≡ some i = rw (rposition, last) at h in
      let at : i ≡ 0 = ground (arith, here) in
      let byte : b ≡ 128 = ground (arith, here) in rw (at, byte) (refl, refl)
  | inr (j, later) ↦
      let there : some (suc j) ≡ some i = rw (rposition, later) at h in
      let at : i ≡ suc j = ground (arith, there) in
      let (split, size) = split_at_last rest j later in
      rw at (ap (λ l. b ∷ l) split, omega (arith, size))
]

-- An input shorter than the target is padded to exactly the target, and stripping gives it back.
pub strip-pad :
    (input : List ℕ) (target : ℕ)
    → length input < target
    → (padded : List ℕ) × (pad_iso7816_4 input target ≡ some padded)
      × (length padded ≡ target)
      × (strip_iso7816_4 padded ≡ some input)
strip-pad input target h =
    let n = target - suc (length input) in
    (
      framed input n,
      pad-framed input target h,
      omega (arith, length-framed input n),
      strip-framed input n,
    )

-- Whatever bytes stripping accepts are the padding of its result to their length: no other bytes
-- decode to that message at that length.
pub pad-strip :
    (padded message : List ℕ)
    → strip_iso7816_4 padded ≡ some message
    → pad_iso7816_4 message (length padded) ≡ some padded
unfolding strip_iso7816_4 framed
pad-strip padded message h = elim (Option-cases (rposition padded)) [
  | inl missing ↦ absurd (ground arith)
  | inr (i, at) ↦
      let tail = drop (suc i) padded in
      let n = length tail in
      let kept : (if any_nonzero tail then none else some (take i padded)) ≡ some message =
        rw (strip_iso7816_4, at) at h in
      let zero_tail : any_nonzero tail ≡ false = ground (arith, kept) in
      let result : take i padded ≡ message = ground (arith, kept) in
      let whole : padded ≡ framed message n =
        (split_at_last padded i at).0
        ∙ ap (λ l. l ++ 128 ∷ tail) result
        ∙ ap (λ t. message ++ 128 ∷ t) (zeros_only tail zero_tail) in
      let size : length padded ≡ length message + suc n =
        ap (λ l. length l) whole ∙ length-framed message n in
      let rest : length padded - suc (length message) ≡ n = omega (arith, size) in
      pad-framed message (length padded) (omega (arith, size))
      ∙ ap (λ r. some (framed message r)) rest
      ∙ ap some (sym whole)
]
