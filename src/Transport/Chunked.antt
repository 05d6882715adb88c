-- ===== src/Transport/Chunked.antt =====
-- The pieces that a large file is read in.
use reporting_platform_local.Common.{
  ℕ, zero, suc, ◌+◌, ◌-◌, ◌*◌, ◌/◌, ◌%◌, ◌≤◌, ◌<◌, ◌==◌, if◌then◌else◌, nat_eq, [], ◌∷◌, ◌++◌,
  length, take, drop, All, ◌≡◌, refl, ap, ◌∙◌, arith,
}
use native.Mathlib.Nat.{div-add-mod, mod-lt}
use reporting_platform_local.Transport.Client.{Bytes, chunks, join_bytes, ceil_div}

length-take_le : (n : ℕ) (body : Bytes) → length (take n body) ≤ n
length-take_le zero body = omega arith
length-take_le (suc n) [] = omega arith
length-take_le (suc n) (b ∷ bs) = omega (arith, length-take_le n bs)

length-drop : (n : ℕ) (body : Bytes) → length (drop n body) ≡ length body - n
length-drop zero body = omega arith
length-drop (suc n) [] = omega arith
length-drop (suc n) (b ∷ bs) = omega (arith, length-drop n bs)

take-++-drop : (n : ℕ) (body : Bytes) → take n body ++ drop n body ≡ body
take-++-drop zero body = refl
take-++-drop (suc n) [] = refl
take-++-drop (suc n) (b ∷ bs) = ap (λ bs. b ∷ bs) (take-++-drop n bs)

chunks-empty : (fuel n : ℕ) → chunks fuel n [] ≡ []
unfolding chunks
chunks-empty zero n = refl
chunks-empty (suc fuel) zero = refl
chunks-empty (suc fuel) (suc n) = refl

-- With as much fuel as there are bytes, the pieces of a positive length are the whole of the body.
pub join_bytes-chunks :
    (fuel n : ℕ) (body : Bytes)
    → 1 ≤ n
    → length body ≤ fuel
    → join_bytes (chunks fuel n body) ≡ body
unfolding chunks
join_bytes-chunks zero n [] positive enough = refl
join_bytes-chunks zero n (b ∷ bs) positive enough = absurd (omega (arith, enough))
join_bytes-chunks (suc fuel) zero body positive enough = absurd (omega (arith, positive))
join_bytes-chunks (suc fuel) (suc n) [] positive enough = refl
join_bytes-chunks (suc fuel) (suc n) (b ∷ bs) positive enough =
    ap (λ rest. b ∷ (take n bs ++ rest))
      (join_bytes-chunks fuel (suc n) (drop n bs) positive
        (omega (arith, enough, length-drop n bs)))
    ∙ ap (λ bs. b ∷ bs) (take-++-drop n bs)

pub chunks-length_le :
    (fuel n m : ℕ) (body : Bytes) → n ≤ m → All (λ part. length part ≤ m) (chunks fuel n body)
unfolding chunks
chunks-length_le zero n m body h = tt
chunks-length_le (suc fuel) zero m body h = tt
chunks-length_le (suc fuel) (suc n) m [] h = tt
chunks-length_le (suc fuel) (suc n) m (b ∷ bs) h =
    (omega (arith, h, length-take_le n bs), chunks-length_le fuel (suc n) m (drop n bs) h)

suc-* : (k n : ℕ) → suc k * suc n ≡ suc n + k * suc n
suc-* k n = ground arith

-- One piece more than the pieces of what is left, the length of which is `d`
one_more : (k n m d : ℕ) → k * suc n ≤ d + n → d ≡ m - n → suc k * suc n ≤ suc m + n
one_more zero n m d h e = omega (arith, suc-* 0 n)
one_more (suc k) n m d h e = omega (arith, h, e, suc-* k n, suc-* (suc k) n)

rounded : (l c n m : ℕ) → l * suc n ≤ m → m < suc c * suc n → l ≤ c
rounded l c n m h k = grind (arith, h, k)

rounded_up :
    (l q r n m : ℕ)
    → l * n ≤ m + (n - 1)
    → n * q + r ≡ m
    → r < n
    → l ≤ q + (if r == 0 then 0 else 1)
rounded_up l q r zero m h whole small = absurd (omega (arith, small))
rounded_up l q zero (suc n) m h whole small =
    omega (arith, rounded l q n (m + n) (omega (arith, h)) (omega (arith, whole, suc-* q n)))
rounded_up l q (suc r) (suc n) m h whole small = ground (
  arith,
  rounded l (suc q) n (m + n) (omega (arith, h))
      (omega (arith, whole, small, suc-* q n, suc-* (suc q) n)),
)

length-chunks :
    (fuel n : ℕ) (body : Bytes) → 1 ≤ n → length (chunks fuel n body) * n ≤ length body + (n - 1)
unfolding chunks
length-chunks zero n body positive = omega (arith, positive)
length-chunks (suc fuel) zero body positive = absurd (omega (arith, positive))
length-chunks (suc fuel) (suc n) [] positive = omega arith
length-chunks (suc fuel) (suc n) (b ∷ bs) positive =
    let rest = length-chunks fuel (suc n) (drop n bs) positive in
    let all =
      one_more (length (chunks fuel (suc n) (drop n bs))) n (length bs) (length (drop n bs))
        (omega (arith, rest)) (length-drop n bs) in
    omega (arith, all)

-- The pieces are as many as the quotient, rounded up, of which `_validate_size` speaks.
pub length-chunks_le :
    (fuel n : ℕ) (body : Bytes) → 1 ≤ n → length (chunks fuel n body) ≤ ceil_div (length body) n
unfolding ceil_div
length-chunks_le fuel n body positive =
    rounded_up (length (chunks fuel n body)) (length body / n) (length body % n) n (length body)
      (length-chunks fuel n body positive) (div-add-mod (length body) n)
      (mod-lt (length body) {m = n} positive)
