-- ===== src/Config/Validity.antt =====
-- What the published configurations satisfy.
use lsfg_vk_android.Common.{
  ℕ, ◌<◌, ◌≡◌, true, false, List, [], ◌∷◌, Option, none, some, arith, ◌⊎◌, inl, inr, Result, ok,
  err, ◌>>=◌, ◌>>◌, or_throw, All, Yields, bind-Yields, same_bytes, Bool-cases,
}
use lsfg_vk_android.Common.Int.{ℤ}
use lsfg_vk_android.Float.{Float}
use lsfg_vk_android.Config.{
  Configuration, Toml, File, Store, Error, cannot_parse, valid_adaptive_flow_preset, assign,
  is_out_of_range, parse_game, parse_games, store_of, parse_version, place_default,
  global_configuration, read_store, update_config,
}

module _ {S : Type 0} (f : Float S) where
  -- A multiplier of one at least, a flow scale from 0.25 to 1.0, a known preset, and a target
  -- where the generation is adaptive.
  pub record IsValid (c : Configuration S) : Type 0 where
    pub multiplier_pos : 0 < c.multiplier
    pub in_range : is_out_of_range f c.flow_scale ≡ false
    pub preset : valid_adaptive_flow_preset c.adaptive_flow_preset ≡ true
    pub target : (c.adaptive_framegen ≡ false) ⊎ (0 < c.fps_limit)

  abbrev pub AreValid : List (List ℕ × Configuration S) → Type 0
  AreValid games = All (λ g. IsValid g.1) games

  abbrev pub IsValidStore : Store S → Type 0
  IsValidStore s =
      IsValid s.global
      × ((s.games ≡ none)
          ⊎ ((games : List (List ℕ × Configuration S)) × (s.games ≡ some games) × AreValid games))

  assign-AreValid :
      (exe : List ℕ) (game : Configuration S) (games : List (List ℕ × Configuration S))
      → IsValid game
      → AreValid games
      → AreValid (assign exe game games)
  unfolding assign
  assign-AreValid exe game [] v h = (v, tt)
  assign-AreValid exe game ((k, c) ∷ rest) v h =
      let ih = assign-AreValid exe game rest v h.1 in
      elim (Bool-cases (same_bytes k exe)) [ inl e ↦ rw e (v, h.1) | inr e ↦ rw e (h.0, ih) ]

  module _ {V : Type 0} (toml : Toml S V) where
    parse_game-IsValid :
        (global : Configuration S) (table : V)
        → Yields (λ e. IsValid e.1) (parse_game f toml global table)
    unfolding parse_game
    parse_game-IsValid global table = ground arith

    parse_games-AreValid :
        (global : Configuration S) (games : List (List ℕ × Configuration S)) (tables : List V)
        → AreValid games
        → Yields AreValid (parse_games f toml global games tables)
    unfolding parse_games
    parse_games-AreValid global games [] h = h
    parse_games-AreValid global games (table ∷ rest) h =
        bind-Yields (λ e. IsValid e.1) AreValid (parse_game f toml global table) _
          (parse_game-IsValid global table)
          λ e v.
            parse_games-AreValid global (assign e.0 e.1 games) rest
              (assign-AreValid e.0 e.1 games v h)

    store_of-IsValidStore :
        (file : List ℕ) (timestamp : ℤ) (document : V)
        → Yields IsValidStore (store_of f toml file timestamp document)
    unfolding store_of global_configuration valid_adaptive_flow_preset
    store_of-IsValidStore file timestamp document =
        let global = global_configuration f toml document file timestamp in
        let tables = toml.array_at document "game" in
        ground (arith, parse_games-AreValid global [] tables tt)

    read_store-IsValidStore :
        (file : List ℕ) (fs : File V) → Yields IsValidStore (read_store f toml file fs)
    unfolding read_store parse_version
    read_store-IsValidStore file fs =
        after_reading (place_default f toml fs) fs.parsed (parse_version f toml) _
          (store_of-IsValidStore file fs.last_write_time)
      where
        after_reading :
            (placed : Result Error (Unit {0})) (parsed : Option V) (check : V → Result Error V)
            (next : V → Result Error (Store S))
            → ((document : V) → Yields IsValidStore (next document))
            → Yields IsValidStore
                (placed >> (or_throw parsed cannot_parse >>= λ v. check v >>= next))
        after_reading (err e) parsed check next h = tt
        after_reading (ok done) none check next h = tt
        after_reading (ok done) (some v) check next h = checked (check v)
          where
            checked : (r : Result Error V) → Yields IsValidStore (r >>= next)
            checked (err e) = tt
            checked (ok document) = h document

    -- Calls of updateConfig one after the other.
    abbrev pub update_all : Store S → List (List ℕ × File V) → Store S
    update_all s [] = s
    update_all s ((file, fs) ∷ rest) = update_all (update_config f toml s file fs).0 rest

    -- Whatever the file holds and whichever update fails, a store whose global configuration and
    -- games are valid stays so.
    pub update_all-IsValidStore :
        (s : Store S) (updates : List (List ℕ × File V))
        → IsValidStore s
        → IsValidStore (update_all s updates)
    unfolding update_config
    update_all-IsValidStore s [] h = h
    update_all-IsValidStore s ((file, fs) ∷ rest) h =
        let after = (update_config f toml s file fs).0 in
        update_all-IsValidStore after rest (ground (arith, read_store-IsValidStore file fs))

    -- An update that fails leaves the store as it was, and one that succeeds publishes all that
    -- it read: the store changes only without an error.
    pub update_config-commits :
        (s : Store S) (file : List ℕ) (fs : File V)
        → (read_store f toml file fs ≡ ok (update_config f toml s file fs).0
            × (update_config f toml s file fs).1 ≡ none)
          ⊎ ((e : Error) × (read_store f toml file fs ≡ err e)
              × (update_config f toml s file fs ≡ (s, some e)))
    unfolding update_config
    update_config-commits s file fs = ground arith
