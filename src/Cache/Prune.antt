-- ===== src/Cache/Prune.antt =====
-- pruneMIMECache (cache.go), from the directories that its walk has measured. The walk itself and the
-- removal of a directory are the file system's: `removed` says which removals succeed. A time counts
-- nanoseconds from the zero time, and sizes are far from the end of an int64.
use eas_bridge.Prelude.{
  ℕ, ◌+◌, ◌-◌, ◌*◌, ◌^◌, String, Bool, not, ◌&&◌, List, [], ◌∷◌, ltb, leb, ◌==◌, if◌then◌else◌,
}

-- mimeCacheMaxBytes and mimeCacheMaxAge
abbrev pub mime_cache_max_bytes : ℕ
mime_cache_max_bytes = 2 ^ 30

abbrev pub mime_cache_max_age : ℕ
mime_cache_max_age = 30 * 24 * 3600000000000

pub record CacheDirectory : Type 0 where
  pub path : String
  pub size : ℕ
  pub modified : ℕ

-- A file that the walk finds: its size and its time.
pub record FileInfo : Type 0 where
  pub size : ℕ
  pub modified : ℕ

-- The function that WalkDir calls, over the files of a directory.
unfoldable pub measure : CacheDirectory → List FileInfo → CacheDirectory
measure dir [] = dir
measure dir (f ∷ fs) =
    measure
      (record dir {
        size = dir.size + f.size;
        modified = if ltb dir.modified f.modified then f.modified else dir.modified;
      })
      fs

-- A directory without a file counts as modified now.
unfoldable pub cache_directory : ℕ → String → List FileInfo → CacheDirectory
unfolding measure
cache_directory now path files =
    let dir = measure (record { path = path; size = 0; modified = 0 }) files in
    if dir.modified == 0 then record dir { modified = now } else dir

unfoldable pub total_size : List CacheDirectory → ℕ
total_size [] = 0
total_size (d ∷ ds) = d.size + total_size ds

-- `sort.Slice(dirs, …modified.Before…)`
unfoldable pub insert_dir : CacheDirectory → List CacheDirectory → List CacheDirectory
insert_dir d [] = d ∷ []
insert_dir d (e ∷ es) =
    let rest = insert_dir d es in if leb d.modified e.modified then d ∷ e ∷ es else e ∷ rest

unfoldable pub sort_dirs : List CacheDirectory → List CacheDirectory
unfolding insert_dir
sort_dirs [] = []
sort_dirs (d ∷ ds) = insert_dir d (sort_dirs ds)

unfoldable pub is_expired : ℕ → CacheDirectory → Bool
is_expired now d = ltb mime_cache_max_age (now - d.modified)

-- The loop that removes: what stays, where `total` is the size of all that is there.
unfoldable pub prune_from : (String → Bool) → ℕ → ℕ → List CacheDirectory → List CacheDirectory
unfolding is_expired
prune_from removed now total [] = []
prune_from removed now total (d ∷ ds) =
    let kept = prune_from removed now total ds in
    let less = prune_from removed now (total - d.size) ds in
    if not (is_expired now d) && not (ltb mime_cache_max_bytes total)
    then d ∷ kept
    else if removed d.path
    then less
    else d ∷ kept

-- The directories that stay of those measured.
unfoldable pub prune : (String → Bool) → ℕ → List CacheDirectory → List CacheDirectory
unfolding sort_dirs total_size prune_from
prune removed now dirs = prune_from removed now (total_size dirs) (sort_dirs dirs)
