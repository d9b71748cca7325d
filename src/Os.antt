-- ===== src/Os.antt =====
-- What the source asks of the operating system's files, over the state W of the machine.
use workspace_service.Base.{ℕ, Bool, Option, List, Text}
use workspace_service.Calls.{Call}
use workspace_service.Errors.{Result}
use workspace_service.File.{Outcome}

-- What os.Stat tells of a file.
pub record Stat : Type 0 where
  pub name : Text
  pub is_dir : Bool
  pub size : ℕ
  pub mod_time : ℕ
  pub inode : ℕ

-- `stat` and `read_dir` (the names in a directory) answer `none` for a file that does not exist. `walk`
-- is what filepath.WalkDir hands to its function, one after the other: a path, or an error. A temporary file is known by its name.
pub record Os (W : Type 0) : Type 0 where
  pub stat : Text → W → Result (Option Stat)
  pub read_file : Text → W → Result (List ℕ)
  pub read_dir : Text → W → Result (Option (List Text))
  pub walk : Text → W → List (Result Text)
  pub mkdir_all : Text → W → Outcome W
  pub rename : Text → Text → W → Outcome W
  pub remove : Text → W → Outcome W
  pub remove_all : Text → W → Outcome W
  pub write_file : Text → List ℕ → W → Outcome W
  pub create_temp : Text → Text → Call W Text
  pub write_temp : Text → List ℕ → W → Outcome W
  pub sync_temp : Text → W → Outcome W
  pub close_temp : Text → W → Outcome W
  pub chmod : Text → W → Outcome W
