-- ===== src/Model/Directory/Storage.antt =====
-- src/model/directory.c: what is written.
use file_share_server.Common.{
  Option, none, some, [], ◌∷◌, ◌++◌, ℤ, pos, negsuc, int_eq, not, if◌then◌else◌, done,
}
use file_share_server.Base64.{codes}
use file_share_server.Database.{Text, System, execute, with_pool}
use file_share_server.Database.Handlers.{Handler, return, lift, ◌>>=◌}
use file_share_server.Model.Support.{
  fit, read, as_int, convert_long_to_string, nonzero_to_string, convert_int_to_string,
  get_current_time, create_directory, remove_directory,
}
use file_share_server.Model.Group.{Group, upload_dir, depth}
use file_share_server.Model.Directory.{
  Directory, directory_find_by_id, directory_get_group, directory_free,
}

module _ {W : Type 0} (system : System W) where
  -- `directory->path` where there is a parent: it is made of the parent's path, and the directory
  -- takes the parent's permission. `none` is the return of -1.
  abbrev pub placed_in : Directory → Option Directory → Handler W (Option Text × Directory)
  placed_in directory none = return (none, directory)
  placed_in directory (some parent) = do
    parent_path ← lift (read parent.path)
    let path = parent_path ++ codes "/" ++ directory.name
    freed ← lift (directory_free (some parent))
    return (some path, record directory { permission = parent.permission; path = some path })

  -- `directory->path` where there is none: it is made of the code of the group.
  abbrev pub placed_under : Directory → Option Group → Handler W (Option Text × Directory)
  placed_under directory none = return (none, directory)
  placed_under directory (some group) = do
    code ← lift (read group.code)
    let path = code ++ codes "/" ++ directory.name
    return (some path, record directory { path = some path })

  unfoldable pub find_path : Directory → Handler W (Option Text × Directory)
  find_path directory =
      if not (int_eq directory.parent_id (pos 0))
      then (do
        found_parent ← directory_find_by_id system directory.parent_id
        placed_in directory found_parent)
      else (do
        (found_group, keeping) ← directory_get_group system directory
        placed_under keeping found_group)

  -- The INSERT of `directory_save`.
  pub insert_directory : Text → Directory → Handler W ℤ
  insert_directory path directory = do
    owner_id ← lift (convert_long_to_string system directory.owner_id)
    group_id ← lift (convert_long_to_string system directory.group_id)
    parent_id ← lift (nonzero_to_string system directory.parent_id)
    permission ← lift (convert_int_to_string system (as_int directory.permission))
    execute system
        "INSERT INTO directories (name, owner_id, group_id, parent_id, path, permission) VALUES (?, ?, ?, ?, ?, ?)"
        (some directory.name
          ∷ some owner_id
          ∷ some group_id
          ∷ parent_id
          ∷ some path
          ∷ some permission
          ∷ [])

  -- The rest of `directory_save`, where the path was found.
  abbrev pub save_at : Option Text → Directory → Handler W (ℤ × Directory)
  save_at none directory = return (negsuc 0, directory)
  save_at (some path) directory = do
    fullpath ← lift (fit 1024 (upload_dir ++ codes "/" ++ path))
    made ← λ w. done (create_directory system fullpath w)
    if not (int_eq made (pos 0)) then return (negsuc 0, directory) else (do
      res ← insert_directory path directory
      if int_eq res (pos 0)
          then (do
            created_at ← get_current_time system
            last_id ← λ w. return (system.last_insert_rowid w) w
            return (pos 0, record directory { id = last_id; created_at = some created_at }))
          else (do removed ← remove_directory system depth path; return (negsuc 0, directory)))

  -- The value returned, and the directory afterwards; what is rolled back is `directory->path`.
  unfoldable pub directory_save : Directory → Handler W (ℤ × Directory)
  directory_save directory =
      with_pool system (negsuc 0, directory)
        (do (found_path, placed) ← find_path directory; save_at found_path placed)

  unfoldable pub directory_remove : Directory → Handler W ℤ
  directory_remove directory = with_pool system (negsuc 0) (do
    id ← lift (convert_long_to_string system directory.id)
    res ← execute system "DELETE FROM directories WHERE id = ?" (some id ∷ [])
    if int_eq res (pos 0)
        then (do
          path ← lift (read directory.path)
          fullpath ← lift (fit 1024 (upload_dir ++ codes "/" ++ path))
          removed ← remove_directory system depth fullpath
          return (pos 0))
        else return (negsuc 0))

  -- The value returned, and the directory afterwards.
  unfoldable pub directory_update : Directory → Handler W (ℤ × Directory)
  directory_update directory =
      with_pool system (negsuc 0, directory)
        (do
          permission ← lift (convert_int_to_string system (as_int directory.permission))
          id ← lift (convert_long_to_string system directory.id)
          res ←
              execute system
                "UPDATE directories SET permission = ?, updated_at = CURRENT_TIMESTAMP WHERE id = ?"
                (some permission ∷ some id ∷ [])
          if int_eq res (pos 0)
              then (do
                updated_at ← get_current_time system
                return (pos 0, record directory { updated_at = some updated_at }))
              else return (negsuc 0, directory))
