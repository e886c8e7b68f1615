-- ===== src/Policy/Names.antt =====
-- What the search in driver names finds, and that letter case never matters.
use lsfg_vk_android.Common.{
  ℕ, ◌≤◌, ◌<◌, ◌≡◌, ◌↔◌, refl, true, List, [], ◌∷◌, ◌++◌, map, length, length-append, arith, ap,
  Bool-cases, inl, inr,
}
use lsfg_vk_android.Policy.Sync.{
  DriverId, ascii_lower, matches, matches_at, contains_ascii_case_insensitive,
  select_framegen_compatibility_path, turnip, qualcomm, adreno, xclipse, samsung,
}

abbrev pub lower : List ℕ → List ℕ
lower cs = map ascii_lower cs

-- The value has a part that is the needle but for letter case.
abbrev pub HasPart : List ℕ → List ℕ → Type 0
HasPart value needle =
    (before : List ℕ) × (part : List ℕ) × (after : List ℕ) × (value ≡ before ++ (part ++ after))
    × (lower part ≡ lower needle)

matches-length :
    (needle value : List ℕ) → matches needle value ≡ true → length needle ≤ length value
unfolding matches
matches-length [] value h = omega arith
matches-length (n ∷ needle) [] h = absurd (ground arith)
matches-length (n ∷ needle) (v ∷ value) h = ground (arith, matches-length needle value)

matches-part :
    (needle value : List ℕ)
    → matches needle value ≡ true
    → (part : List ℕ) × (after : List ℕ) × (value ≡ part ++ after) × (lower part ≡ lower needle)
unfolding matches
matches-part [] value h = ([], value, refl, refl)
matches-part (n ∷ needle) [] h = absurd (ground arith)
matches-part (n ∷ needle) (v ∷ value) h =
    let same : ascii_lower v ≡ ascii_lower n = ground arith in
    let (part, after, p, q) = matches-part needle value (ground arith) in
    (v ∷ part, after, ap (λ t. v ∷ t) p, λ i. same i ∷ q i)

part-matches :
    (needle part after : List ℕ) → lower part ≡ lower needle → matches needle (part ++ after) ≡ true
unfolding matches
part-matches [] part after h = refl
part-matches (n ∷ needle) [] after h = absurd cc
part-matches (n ∷ needle) (c ∷ part) after h = ground (arith, part-matches needle part after)

matches_at-part : (needle value : List ℕ) → matches_at needle value ≡ true → HasPart value needle
unfolding matches_at
matches_at-part needle [] h = absurd (ground arith)
matches_at-part needle (v ∷ value) h = elim (Bool-cases (matches needle (v ∷ value))) [
  | inl e ↦ let (part, after, p, q) = matches-part needle (v ∷ value) e in ([], part, after, p, q)
  | inr e ↦
      let (before, part, after, p, q) = matches_at-part needle value (ground arith) in
      (v ∷ before, part, after, ap (λ t. v ∷ t) p, q)
]

lower-length : (cs : List ℕ) → length (lower cs) ≡ length cs
lower-length [] = refl
lower-length (c ∷ cs) = omega (arith, lower-length cs)

part-length :
    (before part after needle : List ℕ)
    → lower part ≡ lower needle
    → length needle ≤ length (before ++ (part ++ after))
part-length before part after needle q = omega (
  arith,
  length-append before (part ++ after),
  length-append part after,
  lower-length part,
  lower-length needle,
  ap (length {A = ℕ}) q,
)

part-matches_at :
    (needle before part after : List ℕ)
    → 0 < length needle
    → lower part ≡ lower needle
    → matches_at needle (before ++ (part ++ after)) ≡ true
unfolding matches_at
part-matches_at needle [] [] after h q =
    absurd (omega (arith, lower-length needle, ap (length {A = ℕ}) q))
part-matches_at needle [] (c ∷ part) after h q =
    ground (arith, part-matches needle (c ∷ part) after q, part-length [] (c ∷ part) after needle q)
part-matches_at needle (c ∷ before) part after h q = ground (
  arith,
  part-matches_at needle before part after h q,
  part-length (c ∷ before) part after needle q,
)

-- The search finds exactly the parts that are the needle but for letter case, and no needle is
-- found that is empty.
pub contains_iff :
    (value needle : List ℕ)
    → (contains_ascii_case_insensitive value needle ≡ true)
      ↔ ((0 < length needle) × HasPart value needle)
unfolding contains_ascii_case_insensitive
contains_iff value needle = (
  (λ h. (ground arith, matches_at-part needle value (ground arith))),
  (λ (h, (before, part, after, p, q)). rw p (
      ground (
        arith,
        part-matches_at needle before part after h q,
        part-length before part after needle q,
      ))),
)

ascii_lower-ascii_lower : (c : ℕ) → ascii_lower (ascii_lower c) ≡ ascii_lower c
unfolding ascii_lower
ascii_lower-ascii_lower c = ground arith

matches-lower : (needle value : List ℕ) → matches needle (lower value) ≡ matches needle value
unfolding matches
matches-lower [] value = refl
matches-lower (n ∷ needle) [] = refl
matches-lower (n ∷ needle) (v ∷ value) =
    rw (ascii_lower-ascii_lower v, matches-lower needle value) refl

matches_at-lower :
    (needle value : List ℕ) → matches_at needle (lower value) ≡ matches_at needle value
unfolding matches_at
matches_at-lower needle [] = refl
matches_at-lower needle (v ∷ value) =
    rw (matches-lower needle (v ∷ value), matches_at-lower needle value, lower-length value) refl

contains-lower :
    (value needle : List ℕ)
    → contains_ascii_case_insensitive (lower value) needle
      ≡ contains_ascii_case_insensitive value needle
unfolding contains_ascii_case_insensitive
contains-lower value needle = rw (matches_at-lower needle value, lower-length value) refl

-- Letter case in the driver and device names never changes the path.
pub select_path-lower :
    (driver_id : DriverId) (driver_name device_name : List ℕ)
    → select_framegen_compatibility_path driver_id (lower driver_name) (lower device_name)
      ≡ select_framegen_compatibility_path driver_id driver_name device_name
unfolding select_framegen_compatibility_path
select_path-lower driver_id driver_name device_name =
    rw
      (
        contains-lower driver_name turnip,
        contains-lower driver_name qualcomm,
        contains-lower driver_name adreno,
        contains-lower driver_name xclipse,
        contains-lower driver_name samsung,
        contains-lower device_name qualcomm,
        contains-lower device_name adreno,
        contains-lower device_name xclipse,
        contains-lower device_name samsung,
      )
      refl
