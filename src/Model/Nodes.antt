-- ===== src/Model/Nodes.antt =====
-- src/model/directory.c: the nodes of a directory or of a group, which are directories and files.
use file_share_server.Common.{Option, none, some, [], ◌∷◌, ℤ, pos, int_eq, if◌then◌else◌}
use file_share_server.LinkedList
use file_share_server.LinkedList.{LinkedList}
use file_share_server.Database.{Row, System, exec, with_pool}
use file_share_server.Database.Handlers.{Handler, return, lift, ◌>>=◌}
use file_share_server.Model.Support.{read, convert_long_to_string}
use file_share_server.Model.Directory.{Directory, get_directory_callback}
use file_share_server.Model.File.{File, file_of_row}

-- `struct FNode`.
pub data Node : Type 0 where
  of_directory : Directory → Node
  of_file : File → Node

module _ {W : Type 0} (system : System W) where
  -- `_get_directories_callback`.
  unfoldable pub get_directories_callback : Row → LinkedList Node → Handler W (LinkedList Node)
  get_directories_callback res list = do
    found_directory ← get_directory_callback system res none
    directory ← lift (read found_directory)
    lift (LinkedList.insert list (pos list.count) (of_directory directory) 16)

  -- `_get_files_callback`.
  unfoldable pub get_files_callback : Row → LinkedList Node → Handler W (LinkedList Node)
  get_files_callback res list = do
    file ← file_of_row system res
    lift (LinkedList.insert list (pos list.count) (of_file file) 16)

  unfoldable pub get_root_node_by_group : ℤ → Handler W (Option (LinkedList Node))
  get_root_node_by_group group_id = with_pool system none (do
    id ← lift (convert_long_to_string system group_id)
    directories ←
        exec system (some get_directories_callback) LinkedList.linked_list_constructor
          "SELECT * FROM directories WHERE parent_id IS NULL AND group_id = ?" (some id ∷ [])
    if int_eq directories.0 (pos 0)
        then (do
          nodes ←
              exec system (some get_files_callback) directories.1
                "SELECT * FROM files WHERE directory_id IS NULL AND group_id = ?" (some id ∷ [])
          return (if int_eq nodes.0 (pos 0) then some nodes.1 else none))
        else return none)

  -- `_directory_get_children_by_id`.
  unfoldable pub directory_get_children_by_id : ℤ → Handler W (Option (LinkedList Node))
  directory_get_children_by_id directory_id = with_pool system none (do
    id ← lift (convert_long_to_string system directory_id)
    directories ←
        exec system (some get_directories_callback) LinkedList.linked_list_constructor
          "SELECT * FROM directories WHERE parent_id = ? ORDER BY updated_at DESC" (some id ∷ [])
    if int_eq directories.0 (pos 0)
        then (do
          nodes ←
              exec system (some get_files_callback) directories.1
                "SELECT * FROM files WHERE directory_id = ? ORDER BY updated_at DESC" (some id ∷ [])
          return (if int_eq nodes.0 (pos 0) then some nodes.1 else none))
        else return none)

  -- `_children` where it is not NULL.
  unfoldable pub directory_get_children :
      Option (LinkedList Node) → Directory → Handler W (Option (LinkedList Node))
  directory_get_children (some children) directory = return (some children)
  directory_get_children none directory = directory_get_children_by_id directory.id
