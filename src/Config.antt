-- ===== src/Config.antt =====
-- include/config/config.hpp and src/config/config.cpp: the configuration of a game, read from a
-- file that a TOML library parses and published only when all of it is valid.
pub mod Validity
pub mod Choice
mod Tests
use Prim.Native.String.{String}
use lsfg_vk_android.Common.{
  ℕ, Bool, true, false, not, ◌&&◌, ◌||◌, if◌then◌else◌, ltb, ◌==◌, List, [], ◌∷◌, ◌++◌, Option,
  none, some, codes, same_bytes, drop, length, ◌-◌, ◌%◌, ◌^◌, leb, Result, ok, err, ◌>>=◌, ◌>>◌,
  throw_if, or_throw, find,
}
use lsfg_vk_android.Common.Int.{ℤ, pos, negsuc}
use lsfg_vk_android.Float.{Float}

-- The values of VkPresentModeKHR that the file can name.
pub data PresentMode : Type 0 where
  immediate mailbox fifo : PresentMode

pub record Configuration (S : Type 0) : Type 0 where
  pub enable : Bool
  pub targeted : Bool
  pub dll : List ℕ
  pub multiplier : ℕ
  pub flow_scale : S
  pub adaptive_flow_scale : Bool
  pub adaptive_flow_preset : List ℕ
  pub performance : Bool
  pub hdr : Bool
  pub adaptive_framegen : Bool
  pub fps_limit : ℕ
  pub e_present : PresentMode
  pub config_file : List ℕ
  pub timestamp : ℤ

pub data Error : Type 0 where
  cannot_create_directory cannot_create_file cannot_parse global_multiplier flow_scale_range : Error
  invalid_game missing_exe invalid_exe multiplier_range adaptive_preset adaptive_fps_limit : Error
  not_a_number : Error

-- What the code uses of the TOML library, over a type of its values. `find_or` gives the default
-- where the key is absent or holds another type.
pub record Toml (S V : Type 0) : Type 0 where
  pub contains : V → String → Bool
  -- The integer at a key; `none` where as_integer throws.
  pub integer_at : V → String → Option ℤ
  -- find_or_default of a table and of an array.
  pub table_at : V → String → V
  pub array_at : V → String → List V
  pub is_table : V → Bool
  -- toml::find of a string; `none` where it throws.
  pub string_at : V → String → Option (List ℕ)
  pub string_or : V → String → List ℕ → List ℕ
  pub unsigned_or : V → String → ℕ → ℕ
  pub float_or : V → String → S → S
  pub bool_or : V → String → Bool → Bool

-- What the file system answers: whether the file and its directory exist, whether the directory
-- and the file could be created, the parsed file, and its timestamp.
pub record File (V : Type 0) : Type 0 where
  pub exists : Bool
  pub parent_exists : Bool
  pub parent_created : Bool
  pub opened : Bool
  pub parsed : Option V
  pub last_write_time : ℤ

-- The games of the file. The last entry of an executable counts; the order in which the table
-- is walked is the library's.
pub record Store (S : Type 0) : Type 0 where
  pub global : Configuration S
  pub games : Option (List (List ℕ × Configuration S))

unfoldable pub valid_adaptive_flow_preset : List ℕ → Bool
valid_adaptive_flow_preset preset =
    same_bytes preset (codes "quality")
    || same_bytes preset (codes "balanced")
    || same_bytes preset (codes "low")
    || same_bytes preset (codes "auto")

unfoldable pub into_present : List ℕ → PresentMode
into_present mode =
    if same_bytes mode (codes "fifo") || same_bytes mode (codes "vsync")
    then fifo
    else if same_bytes mode (codes "mailbox")
    then mailbox
    else if same_bytes mode (codes "immediate")
    then immediate
    else fifo

abbrev pub is_one : ℤ → Bool
is_one (pos n) = n == 1
is_one (negsuc n) = false

-- games[exe] = game.
unfoldable pub assign {ℓ} : {A : Type ℓ} → List ℕ → A → List (List ℕ × A) → List (List ℕ × A)
assign key value [] = (key, value) ∷ []
assign key value ((k, v) ∷ rest) =
    if same_bytes k key then (k, value) ∷ rest else (k, v) ∷ assign key value rest

unfoldable pub ends_with : List ℕ → List ℕ → Bool
ends_with text suffix =
    leb (length suffix) (length text) && same_bytes (drop (length text - length suffix) text) suffix

module _ {S : Type 0} (f : Float S) where
  open f use {lt, decimal}

  -- Configuration{}; VK_PRESENT_MODE_IMMEDIATE_KHR is 0.
  abbrev pub default_configuration : Configuration S
  default_configuration = record {
    enable = false;
    targeted = false;
    dll = [];
    multiplier = 2;
    flow_scale = decimal 1 0;
    adaptive_flow_scale = false;
    adaptive_flow_preset = codes "quality";
    performance = false;
    hdr = false;
    adaptive_framegen = false;
    fps_limit = 0;
    e_present = immediate;
    config_file = [];
    timestamp = pos 0;
  }

  -- A flow scale outside 0.25 to 1.0.
  abbrev pub is_out_of_range : S → Bool
  is_out_of_range scale = lt scale (decimal 25 2) || lt (decimal 1 0) scale

  module _ {V : Type 0} (toml : Toml S V) where
    open toml use {
      contains, integer_at, table_at, array_at, is_table, string_at, string_or, unsigned_or,
      float_or, bool_or,
    }

    unfoldable pub parse_version : V → Result Error V
    parse_version document = do
      throw_if (not (contains document "version")) cannot_parse
      version ← or_throw (integer_at document "version") cannot_parse
      throw_if (not (is_one version)) cannot_parse
      ok document

    unfoldable pub global_configuration : V → List ℕ → ℤ → Configuration S
    global_configuration document file timestamp = record default_configuration {
      dll = string_or (table_at document "global") "dll" [];
      config_file = file;
      timestamp = timestamp;
    }

    unfoldable pub game_configuration : Configuration S → V → Configuration S
    unfolding into_present
    game_configuration global table = record {
      enable = true;
      targeted = true;
      dll = global.dll;
      multiplier = unsigned_or table "multiplier" 2;
      flow_scale = float_or table "flow_scale" (decimal 1 0);
      adaptive_flow_scale = bool_or table "adaptive_flow_scale" false;
      adaptive_flow_preset = string_or table "adaptive_flow_preset" (codes "quality");
      performance = bool_or table "performance_mode" false;
      hdr = bool_or table "hdr_mode" false;
      adaptive_framegen = bool_or table "adaptive_framegen" false;
      fps_limit = unsigned_or table "fps_limit" 0;
      e_present = into_present (string_or table "experimental_present_mode" []);
      config_file = global.config_file;
      timestamp = global.timestamp;
    }

    -- One entry of the list of games.
    unfoldable pub parse_game : Configuration S → V → Result Error (List ℕ × Configuration S)
    unfolding game_configuration
    parse_game global table = do
      throw_if (not (is_table table)) invalid_game
      throw_if (not (contains table "exe")) missing_exe
      exe ← or_throw (string_at table "exe") invalid_exe
      let game = game_configuration global table
      throw_if (ltb game.multiplier 1) multiplier_range
      throw_if (is_out_of_range game.flow_scale) flow_scale_range
      throw_if (not (valid_adaptive_flow_preset game.adaptive_flow_preset)) adaptive_preset
      throw_if (game.adaptive_framegen && game.fps_limit == 0) adaptive_fps_limit
      ok (exe, game)

    -- The loop over the games.
    unfoldable pub parse_games :
        Configuration S
        → List (List ℕ × Configuration S)
        → List V
        → Result Error (List (List ℕ × Configuration S))
    parse_games global games [] = ok games
    parse_games global games (table ∷ rest) =
        parse_game global table >>= λ entry. parse_games global (assign entry.0 entry.1 games) rest

    -- The first call places the default file.
    unfoldable pub place_default : File V → Result Error (Unit {0})
    place_default fs = do
      throw_if (not fs.exists && not fs.parent_exists && not fs.parent_created)
          cannot_create_directory
      throw_if (not fs.exists && not fs.opened) cannot_create_file
      ok tt

    -- From the parsed document on.
    unfoldable pub store_of : List ℕ → ℤ → V → Result Error (Store S)
    unfolding global_configuration
    store_of file timestamp document = do
      let global = global_configuration document file timestamp
      throw_if (ltb global.multiplier 2) global_multiplier
      throw_if (is_out_of_range global.flow_scale) flow_scale_range
      games ← parse_games global [] (array_at document "game")
      ok (record { global = global; games = some games })

    unfoldable pub read_store : List ℕ → File V → Result Error (Store S)
    unfolding parse_version place_default
    read_store file fs = do
      place_default fs
      parsed ← or_throw fs.parsed cannot_parse
      document ← parse_version parsed
      store_of file fs.last_write_time document

    -- updateConfig: the new store, and the error that was thrown.
    unfoldable pub update_config : Store S → List ℕ → File V → Store S × Option Error
    update_config s file fs = elim (read_store file fs) [ ok t ↦ (t, none) | err e ↦ (s, some e) ]

  -- The game whose executable is the process's name, or the end of its path.
  abbrev pub matches_game : List ℕ → List ℕ → List ℕ × Configuration S → Bool
  matches_game path name (exe, game) = ends_with path exe || same_bytes name exe

  -- The end of getConfig, without LSFG_LEGACY. `walk` is the order in which the table is walked.
  unfoldable pub stored_configuration :
      (List (List ℕ × Configuration S) → List (List ℕ × Configuration S))
      → Store S
      → List ℕ
      → List ℕ
      → Configuration S
  stored_configuration walk s path name = elim s.games [
    | none ↦ s.global
    | some games ↦ elim (find (matches_game path name) (walk games)) [
      | none ↦ s.global
      | some (exe, game) ↦ game
    ]
  ]

  -- The environment of LSFG_LEGACY, with std::stoul and std::stof; `none` where they throw.
  module _ (env : String → Option (List ℕ)) (stoul : List ℕ → Option ℕ)
      (stof : List ℕ → Option S) where
    abbrev pub is_set : Option (List ℕ) → Bool → Bool
    is_set none default = default
    is_set (some value) default = same_bytes value (codes "1")

    abbrev pub text_or : Option (List ℕ) → List ℕ → List ℕ
    text_or none default = default
    text_or (some value) default = value

    abbrev pub parse_or {ℓ} : {A : Type ℓ} → (List ℕ → Option A) → Option (List ℕ) → A → Option A
    parse_or read none default = some default
    parse_or read (some value) default = read value

    unfoldable pub legacy_configuration : Result Error (Configuration S)
    unfolding into_present
    legacy_configuration = do
      multiplier ← or_throw (parse_or stoul (env "LSFG_MULTIPLIER") 2) not_a_number
      flow_scale ← or_throw (parse_or stof (env "LSFG_FLOW_SCALE") (decimal 1 0)) not_a_number
      fps_limit ← or_throw (parse_or stoul (env "LSFG_FPS_LIMIT") 0) not_a_number
      let preset = text_or (env "LSFG_ADAPTIVE_FLOW_PRESET") (codes "quality")
      throw_if (not (valid_adaptive_flow_preset preset)) adaptive_preset
      ok (record default_configuration {
        enable = true;
        targeted = true;
        dll = text_or (env "LSFG_DLL_PATH") [];
        multiplier = multiplier;
        flow_scale = flow_scale;
        adaptive_flow_scale = is_set (env "LSFG_ADAPTIVE_FLOW_SCALE") false;
        adaptive_flow_preset = preset;
        performance = is_set (env "LSFG_PERFORMANCE_MODE") false;
        hdr = is_set (env "LSFG_HDR_MODE") false;
        adaptive_framegen = is_set (env "LSFG_ADAPTIVE_FRAMEGEN") false;
        fps_limit = fps_limit % 2 ^ 32;
        e_present = into_present (text_or (env "LSFG_EXPERIMENTAL_PRESENT_MODE") (codes "fifo"));
      })

    -- getConfig.
    unfoldable pub get_config :
        (List (List ℕ × Configuration S) → List (List ℕ × Configuration S))
        → Store S
        → List ℕ
        → List ℕ
        → Result Error (Configuration S)
    unfolding stored_configuration
    get_config walk s path name = elim (env "LSFG_LEGACY") [
      | some value ↦ legacy_configuration
      | none ↦ ok (stored_configuration walk s path name)
    ]
