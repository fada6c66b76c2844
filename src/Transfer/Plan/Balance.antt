-- ===== src/Transfer/Plan/Balance.antt =====
-- multistream_copy.rs: the lanes of a plan have about the same number of bytes.
use networkcopy_speed.Common.{ℕ, ◌≤◌, ◌≡◌, List, get_elem?, All, some}
use networkcopy_speed.Transfer.Manifest.{ManifestEntry, classify_file}
use networkcopy_speed.Transfer.Plan.{Building, size_of, max_resume_stripe_bytes}
use networkcopy_speed.Transfer.Plan.Even.{Even}

-- The class of every entry is that of its size, as the scan sets it.
abbrev pub Classified : List ManifestEntry → Type 0
Classified manifest =
    (k : ℕ) (entry : ManifestEntry)
    → get_elem? manifest k ≡ some entry
    → entry.class ≡ classify_file entry.file_size

abbrev SmallFile : List ManifestEntry → ℕ → Type 0
SmallFile manifest id = size_of manifest id ≤ max_resume_stripe_bytes

-- What holds between two rounds of the loop over the manifest.
abbrev EvenSoFar : List ManifestEntry → Building → Type 0
EvenSoFar manifest b = Even b.lanes × All (SmallFile manifest) b.medium_file_ids
