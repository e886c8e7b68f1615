-- ===== src/Config/Choice.antt =====
-- Which configuration getConfig of src/config/config.cpp gives a game.
use Prim.Native.String.{String}
use mathlib.Core.List.{Memᴰ}
use lsfg_vk_android.Common.{
  ℕ, ◌≡◌, refl, true, false, List, [], ◌∷◌, Option, none, some, arith, ◌⊎◌, inl, inr, Result, ok,
  find, find-cases, All, All-of, All-Memᴰ, Yields, same_bytes, same_bytes-eq, same_bytes_refl,
  Bool-cases, ◌++◌, ◌≢◌, ◌+◌, ◌-◌, ◌∙◌, ap, length, length-append, take, drop, zero, suc, ◌↔◌,
}
use lsfg_vk_android.Float.{Float}
use lsfg_vk_android.Config.{
  Configuration, Store, Error, valid_adaptive_flow_preset, matches_game, get_config,
  stored_configuration, legacy_configuration, ends_with,
}
use lsfg_vk_android.Config.Validity.{IsValid, AreValid, IsValidStore}

-- The executable of a game is the process's name or a suffix of its path.
abbrev pub IsNamed : List ℕ → List ℕ → List ℕ → Type 0
IsNamed path name exe = (name ≡ exe) ⊎ ((front : List ℕ) × (path ≡ front ++ exe))

drop-append : (xs ys : List ℕ) → drop (length xs) (xs ++ ys) ≡ ys
drop-append [] ys = refl
drop-append (x ∷ xs) ys = drop-append xs ys

take-drop : (n : ℕ) (xs : List ℕ) → xs ≡ take n xs ++ drop n xs
take-drop zero xs = refl
take-drop (suc n) [] = refl
take-drop (suc n) (x ∷ xs) = ap (λ rest. x ∷ rest) (take-drop n xs)

equal-same_bytes : (xs ys : List ℕ) → xs ≡ ys → same_bytes xs ys ≡ true
equal-same_bytes xs ys e = rw e (same_bytes_refl ys)

ends_with-suffix :
    (text suffix : List ℕ)
    → ends_with text suffix ≡ true
    → (front : List ℕ) × (text ≡ front ++ suffix)
unfolding ends_with
ends_with-suffix text suffix h =
    let n = length text - length suffix in
    let same : drop n text ≡ suffix = same_bytes-eq (drop n text) suffix (ground arith) in
    (take n text, take-drop n text ∙ ap (λ rest. take n text ++ rest) same)

suffix-ends_with :
    (text suffix front : List ℕ) → text ≡ front ++ suffix → ends_with text suffix ≡ true
unfolding ends_with
suffix-ends_with text suffix front e =
    let sum = length-append front suffix in
    let counted : length text ≡ length front + length suffix = ap (λ xs. length xs) e ∙ sum in
    let start : length text - length suffix ≡ length front = omega arith in
    let rest : drop (length text - length suffix) text ≡ suffix =
      ap (λ n. drop n text) start
      ∙ ap (λ xs. drop (length front) xs) e
      ∙ drop-append front suffix in
    let same = equal-same_bytes (drop (length text - length suffix) text) suffix rest in
    ground arith

module _ {S : Type 0} (f : Float S) where
  -- A game of a valid table gets a valid configuration.
  AreValid-Memᴰ :
      (games : List (List ℕ × Configuration S)) (x : List ℕ × Configuration S)
      → AreValid f games
      → Memᴰ x games
      → IsValid f x.1
  AreValid-Memᴰ games x v m = All-Memᴰ (λ c. IsValid f c.1) games x v m

  -- What a configuration is, that the table gives: that of a game with the name, or the global one
  -- where no game of the table has it.
  abbrev pub Belongs :
      List (List ℕ × Configuration S) → Configuration S → List ℕ → List ℕ → Configuration S → Type 0
  Belongs games global path name c =
      ((exe : List ℕ) × Memᴰ (exe, c) games × IsNamed path name exe)
      ⊎ ((c ≡ global) × All (λ g. ¬ IsNamed path name g.0) games)

  matches_game-cases :
      (path name : List ℕ) (g : List ℕ × Configuration S)
      → ((matches_game f path name g ≡ true) × IsNamed path name g.0)
        ⊎ ((matches_game f path name g ≡ false) × (¬ IsNamed path name g.0))
  matches_game-cases path name (exe, game) = elim (Bool-cases (ends_with path exe)) [
    | inl e ↦ inl (ground arith, inr (ends_with-suffix path exe e))
    | inr e ↦ elim (Bool-cases (same_bytes name exe)) [
      | inl same ↦ inl (ground arith, inl (same_bytes-eq name exe same))
      | inr other ↦
          let unlike : name ≢ exe =
            λ h. let same = equal-same_bytes name exe h in absurd (ground arith) in
          let beyond : (front : List ℕ) → path ≢ front ++ exe =
            λ front h. let ends = suffix-ends_with path exe front h in absurd (ground arith) in
          inr (
            ground arith,
            λ named. elim named [ inl h ↦ unlike h | inr (front, h) ↦ beyond front h ],
          )
    ]
  ]

  -- What the search for a game finds.
  chosen_by :
      (games walked : List (List ℕ × Configuration S)) (global : Configuration S)
      (path name : List ℕ)
      → ((e : List ℕ × Configuration S) → Memᴰ e walked ↔ Memᴰ e games)
      → IsValid f global
      → AreValid f games
      → (c : Configuration S) × ((elim (find (matches_game f path name) walked) [
        | none ↦ global
        | some (exe, game) ↦ game
      ])
          ≡ c)
        × IsValid f c
        × Belongs games global path name c
  chosen_by games walked global path name same g v =
      elim (find-cases (matches_game f path name) walked) [
        | inl ((exe, game), found, member, matching) ↦
            let known = (same (exe, game)).0 member in
            let named : IsNamed path name exe = elim (matches_game-cases path name (exe, game)) [
              | inl (e, named) ↦ named
              | inr (e, other) ↦ absurd (ground arith)
            ] in
            (game, rw found refl, AreValid-Memᴰ games (exe, game) v known, inl (exe, known, named))
        | inr (missing, refused) ↦ (
          global,
          rw missing refl,
          g,
          inr (
            refl,
            All-of (λ e. ¬ IsNamed path name e.0) games
                λ e m. elim (matches_game-cases path name e) [
                  | inl (yes_match, named) ↦
                      let no_match =
                        All-Memᴰ (λ x. matches_game f path name x ≡ false) walked e refused
                          ((same e).1 m) in
                      absurd (ground arith)
                  | inr (no_match, other) ↦ other
                ],
          ),
        )
      ]

  stored-cases :
      (walk : List (List ℕ × Configuration S) → List (List ℕ × Configuration S))
      → ((games : List (List ℕ × Configuration S)) (e : List ℕ × Configuration S)
          → Memᴰ e (walk games) ↔ Memᴰ e games)
      → (s : Store S) (path name : List ℕ) → IsValidStore f s
      → (c : Configuration S) × (stored_configuration f walk s path name ≡ c)
        × IsValid f c
        × (((s.games ≡ none) × (c ≡ s.global))
            ⊎ ((games : List (List ℕ × Configuration S)) × (s.games ≡ some games)
                × Belongs games s.global path name c))
  unfolding stored_configuration
  stored-cases walk visits s path name (g, inl e) = (s.global, rw e refl, g, inl (e, refl))
  stored-cases walk visits s path name (g, inr (games, e, v)) =
      let (c, same, valid, source) =
        chosen_by games (walk games) s.global path name (visits games) g v in
      (c, rw e same, valid, inr (games, e, source))

  module _ (env : String → Option (List ℕ)) (stoul : List ℕ → Option ℕ)
      (stof : List ℕ → Option S) where
    -- What getConfig gives, with LSFG_LEGACY and without it.
    abbrev pub Gets : Store S → List ℕ → List ℕ → Result Error (Configuration S) → Type 0
    Gets s path name r =
        ((value : List ℕ) × (env "LSFG_LEGACY" ≡ some value)
          × (r ≡ legacy_configuration f env stoul stof)
          × Yields (λ c. valid_adaptive_flow_preset c.adaptive_flow_preset ≡ true)
              (legacy_configuration f env stoul stof))
        ⊎ ((c : Configuration S) × (env "LSFG_LEGACY" ≡ none)
            × (r ≡ ok c)
            × IsValid f c
            × (((s.games ≡ none) × (c ≡ s.global))
                ⊎ ((games : List (List ℕ × Configuration S)) × (s.games ≡ some games)
                    × Belongs games s.global path name c)))

    legacy-preset :
        Yields
          (λ c. valid_adaptive_flow_preset c.adaptive_flow_preset ≡ true)
          (legacy_configuration f env stoul stof)
    unfolding legacy_configuration
    legacy-preset = ground arith

    -- With LSFG_LEGACY in the environment the result is the one of the environment alone, and a
    -- configuration that it gives has a known preset. Without it a valid store gives a valid
    -- configuration: the global one where there is no table or no game of the table has the name,
    -- and otherwise that of a game whose executable is the name of the process or a suffix of its
    -- path, in whatever order the games of the table are walked.
    pub get_config-IsValid :
        (walk : List (List ℕ × Configuration S) → List (List ℕ × Configuration S))
        → ((games : List (List ℕ × Configuration S)) (e : List ℕ × Configuration S)
            → Memᴰ e (walk games) ↔ Memᴰ e games)
        → (s : Store S) (path name : List ℕ) → IsValidStore f s
        → Gets s path name (get_config f env stoul stof walk s path name)
    unfolding get_config
    get_config-IsValid walk visits s path name (g, h) = by_env (env "LSFG_LEGACY") refl
      where
        by_env :
            (o : Option (List ℕ))
            → env "LSFG_LEGACY" ≡ o
            → Gets s path name (get_config f env stoul stof walk s path name)
        by_env (some value) e =
            let found : get_config f env stoul stof walk s path name
                ≡ legacy_configuration f env stoul stof =
              rw (e, get_config) refl in
            inl (value, e, found, legacy-preset)
        by_env none e =
            let (c, same, valid, source) = stored-cases walk visits s path name (g, h) in
            let found : get_config f env stoul stof walk s path name ≡ ok c =
              rw (e, get_config) (ap (λ x. ok x) same) in
            inr (c, e, found, valid, source)
