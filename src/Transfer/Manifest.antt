-- ===== src/Transfer/Manifest.antt =====
-- manifest_scan.rs: the entries of a manifest and the class of a file.
use networkcopy_speed.Common.{ℕ, ◌*◌, Bool, true, false, List, leb, if◌then◌else◌}

pub data FileClass : Type 0 where
  tiny medium large : FileClass

-- `==` of FileClass.
abbrev pub is_tiny : FileClass → Bool
is_tiny tiny = true
is_tiny _ = false

abbrev pub is_medium : FileClass → Bool
is_medium medium = true
is_medium _ = false

abbrev pub is_large : FileClass → Bool
is_large large = true
is_large _ = false

-- The path is its UTF-16 units.
pub record ManifestEntry : Type 0 where
  pub relative_path : List ℕ
  pub file_size : ℕ
  pub last_write_time : ℕ
  pub file_attributes : ℕ
  pub class : FileClass

abbrev pub mib : ℕ
mib = 1024 * 1024

abbrev pub tiny_file_max_bytes : ℕ
tiny_file_max_bytes = 256 * 1024

abbrev pub large_file_min_bytes : ℕ
large_file_min_bytes = 64 * mib

unfoldable pub classify_file : ℕ → FileClass
classify_file file_size =
    if leb file_size tiny_file_max_bytes
    then tiny
    else if leb large_file_min_bytes file_size
    then large
    else medium
