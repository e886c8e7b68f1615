-- ===== src/Config/Tests.antt =====
-- The configuration at a concrete file.
use Prim.Native.String.{String}
use lsfg_vk_android.Common.{
  ℕ, ◌≡◌, refl, Bool, true, false, List, [], ◌∷◌, Option, none, some, arith, inl, inr, codes,
  same_bytes, ◌||◌, ◌&&◌,
}
use lsfg_vk_android.Common.Int.{pos}
use lsfg_vk_android.Float.Fixed.{Fixed, fixed_float}
use lsfg_vk_android.Config.{
  Toml, File, Store, adaptive_fps_limit, default_configuration, update_config, get_config,
  read_store, valid_adaptive_flow_preset, assign, parse_version, place_default,
  global_configuration, store_of, parse_games, parse_game, game_configuration,
}
use lsfg_vk_android.Config.Choice.{get_config-IsValid, Gets}
use lsfg_vk_android.Config.Validity.{IsValid, IsValidStore, update_all, update_all-IsValidStore}

-- A document with the two games "a" and "b", of which "b" is adaptive without a target.
data Value : Type 0 where
  document game_a game_b : Value

abbrev is_key : String → String → Bool
is_key key name = same_bytes (codes key) (codes name)

abbrev executable : Value → List ℕ
executable document = []
executable game_a = codes "a"
executable game_b = codes "b"

abbrev games : Value → List Value
games document = game_a ∷ []
games game_a = []
games game_b = game_b ∷ []

abbrev is_adaptive : Value → Bool
is_adaptive document = false
is_adaptive game_a = false
is_adaptive game_b = true

abbrev library : Toml Fixed Value
library = record {
  contains = λ v key. is_key key "version" || is_key key "exe";
  integer_at = λ v key. some (pos 1);
  table_at = λ v key. v;
  array_at = λ v key. games v;
  is_table = λ v. true;
  string_at = λ v key. some (executable v);
  string_or = λ v key default. default;
  unsigned_or = λ v key default. default;
  float_or = λ v key default. default;
  bool_or = λ v key default. is_key key "adaptive_framegen" && is_adaptive v;
}

abbrev file_of : Value → File Value
file_of v = record {
  exists = true;
  parent_exists = true;
  parent_created = true;
  opened = true;
  parsed = some v;
  last_write_time = pos 7;
}

abbrev initial : Store Fixed
initial = record { global = default_configuration fixed_float; games = none }

global-IsValid : IsValid fixed_float initial.global
unfolding valid_adaptive_flow_preset
global-IsValid = record {
  multiplier_pos = omega arith;
  in_range = refl;
  preset = refl;
  target = inl refl;
}

initial-IsValidStore : IsValidStore fixed_float initial
initial-IsValidStore = (global-IsValid, inl refl)

-- The first file is good; the second, whose game has no target, is not.
abbrev updates : List (List ℕ × File Value)
updates = (codes "conf.toml", file_of document) ∷ (codes "conf.toml", file_of game_b) ∷ []

update_all-IsValidStore_example :
    IsValidStore fixed_float (update_all fixed_float library initial updates)
update_all-IsValidStore_example =
    update_all-IsValidStore fixed_float library initial updates initial-IsValidStore

refused :
    (update_config fixed_float library initial [] (file_of game_b)).1 ≡ some adaptive_fps_limit
unfolding update_config read_store store_of parse_games parse_game game_configuration parse_version
    place_default valid_adaptive_flow_preset global_configuration assign
refused = refl

abbrev published : Store Fixed
published = record {
  global = default_configuration fixed_float;
  games = some ((codes "a", default_configuration fixed_float) ∷ []);
}

-- No variable of the environment is set, and no number is read.
abbrev environment : String → Option (List ℕ)
environment name = none

abbrev no_number : List ℕ → Option ℕ
no_number text = none

abbrev no_scale : List ℕ → Option Fixed
no_scale text = none

get_config-IsValid_example :
    Gets fixed_float environment no_number no_scale published (codes "/bin/a") [] (
      get_config fixed_float environment no_number no_scale
        (λ games. games)
        published
        (codes "/bin/a")
        [])
get_config-IsValid_example =
    get_config-IsValid fixed_float environment no_number no_scale (λ games. games)
      (λ games e. (λ m. m, λ m. m)) published (codes "/bin/a") []
      (
        global-IsValid,
        inr ((codes "a", default_configuration fixed_float) ∷ [], refl, (global-IsValid, tt)),
      )
