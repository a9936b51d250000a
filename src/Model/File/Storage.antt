-- ===== src/Model/File/Storage.antt =====
-- src/model/file.c: what is written.
use file_share_server.Common.{
  Option, none, some, [], ◌∷◌, ◌++◌, ℤ, pos, negsuc, int_eq, if◌then◌else◌, done,
}
use file_share_server.Base64.{codes}
use file_share_server.Database.{System, execute, with_pool}
use file_share_server.Database.Handlers.{Handler, return, lift, ◌>>=◌}
use file_share_server.Model.Support.{
  fit, read, convert_long_to_string, nonzero_to_string, get_current_time,
}
use file_share_server.Model.Group.{upload_dir}
use file_share_server.Model.Directory.{Directory}
use file_share_server.Model.File.{File, file_get_directory}

module _ {W : Type 0} (system : System W) where
  -- The file takes the permission of its directory, if it has one.
  abbrev pub inherits : Option Directory → File → File
  inherits none file = file
  inherits (some directory) file = record file { permission = directory.permission }

  -- The value returned, and the file afterwards.
  unfoldable pub file_save : File → Handler W (ℤ × File)
  file_save file =
      with_pool system (negsuc 0, file)
        (do
          (directory, keeping) ← file_get_directory system file
          let placed = inherits directory keeping
          size ← lift (convert_long_to_string system placed.size)
          permission ← lift (convert_long_to_string system (pos placed.permission))
          directory_id ← lift (nonzero_to_string system placed.directory_id)
          group_id ← lift (convert_long_to_string system placed.group_id)
          owner_id ← lift (convert_long_to_string system placed.owner_id)
          modified_by ← lift (convert_long_to_string system placed.modified_by)
          res ←
              execute system
                "INSERT INTO files (name, size, permission, path, directory_id, group_id, owner_id, modified_by) VALUES (?, ?, ?, ?, ?, ?, ?, ?)"
                (some placed.name
                  ∷ some size
                  ∷ some permission
                  ∷ placed.path
                  ∷ directory_id
                  ∷ some group_id
                  ∷ some owner_id
                  ∷ some modified_by
                  ∷ [])
          if int_eq res (pos 0)
              then (do
                now ← get_current_time system
                last_id ← λ w. return (system.last_insert_rowid w) w
                return (
                  pos 0,
                  record placed { id = last_id; created_at = some now; updated_at = some now },
                ))
              else return (negsuc 0, placed))

  unfoldable pub file_remove : File → Handler W ℤ
  file_remove file = with_pool system (negsuc 0) (do
    id ← lift (convert_long_to_string system file.id)
    res ← execute system "DELETE FROM files WHERE id = ?" (some id ∷ [])
    if int_eq res (pos 0)
        then (do
          path ← lift (read file.path)
          fullpath ← lift (fit 1024 (upload_dir ++ codes "/" ++ path))
          removed ← λ w. done (system.remove fullpath w)
          return (pos 0))
        else return (negsuc 0))

  -- The value returned, and the file afterwards.
  unfoldable pub file_update : File → Handler W (ℤ × File)
  file_update file =
      with_pool system (negsuc 0, file)
        (do
          updated_at ← get_current_time system
          size ← lift (convert_long_to_string system file.size)
          permission ← lift (convert_long_to_string system (pos file.permission))
          modified_by ← lift (convert_long_to_string system file.modified_by)
          id ← lift (convert_long_to_string system file.id)
          res ←
              execute system
                "UPDATE files SET size = ?, permission = ?, modified_by = ?, updated_at = CURRENT_TIMESTAMP WHERE id = ?"
                (some size ∷ some permission ∷ some modified_by ∷ some id ∷ [])
          if int_eq res (pos 0)
              then return (pos 0, record file { updated_at = some updated_at })
              else return (negsuc 0, file))
