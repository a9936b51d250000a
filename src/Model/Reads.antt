-- ===== src/Model/Reads.antt =====
-- The queries for directories and files only read.
use file_share_server.Common.{
  ◌≡◌, refl, Bool, true, false, ℤ, pos, int_eq, Outcome, Option, none, some, List, ◌∷◌, [],
  if◌then◌else◌,
}
use file_share_server.LinkedList
use file_share_server.LinkedList.{LinkedList}
use Prim.Native.String.{String}
use file_share_server.Database.{Text, Row, System, column_text, exec}
use file_share_server.Database.Handlers.{Handler, return, lift, ◌>>=◌}
use file_share_server.Database.Selects.{
  KeepsSelects, IsReading, is_select, return-IsReading, lift-IsReading, bind-IsReading,
  with_pool-IsReading, exec-IsReading,
}
use file_share_server.Model.Support.{read, convert_long_to_string}
use file_share_server.Model.User.{found}
use file_share_server.Model.Group.{Group, group_find_by_id}
use file_share_server.Model.Directory.{
  Directory, directory_new, get_directory_callback, directory_find_by_id, directory_get_group,
  kept_group,
}
use file_share_server.Model.File.{
  File, file_new, file_of_row, get_file_callback, file_find_by_id, file_find_by_name,
  pointed_to_string,
}
use file_share_server.Model.Nodes.{
  Node, get_directories_callback, get_files_callback, get_root_node_by_group,
  directory_get_children_by_id, directory_get_children,
}
use file_share_server.Model.Queries.{query-IsReading, group_find_by_id-IsReading}

module _ {W : Type 0} (system : System W) (keeper : KeepsSelects system) where
  -- A value that may fault, and what is done with it.
  pub lifted-IsReading :
      {A B : Type 0} (a : Outcome A) (f : A → Handler W B)
      → ((a : A) → IsReading (f a))
      → IsReading (lift a >>= f)
  lifted-IsReading a f h = bind-IsReading (lift a) f (lift-IsReading a) h

  get_directory_callback-IsReading :
      (row : Row) (arg : Option Directory) → IsReading (get_directory_callback system row arg)
  unfolding get_directory_callback
  get_directory_callback-IsReading row arg =
      lifted-IsReading (directory_new system _ _ _ _) _ (λ directory.
        lifted-IsReading (read (column_text row 3)) _ (λ path.
          lifted-IsReading (read (column_text row 7)) _ (λ created_at.
            lifted-IsReading (read (column_text row 8)) _ (λ updated_at. return-IsReading _))))

  pub directory_find_by_id-IsReading : (id : ℤ) → IsReading (directory_find_by_id system id)
  unfolding directory_find_by_id
  directory_find_by_id-IsReading id = with_pool-IsReading system none _ (
      lifted-IsReading (convert_long_to_string system id) _ (λ value.
        query-IsReading system keeper (get_directory_callback system) none _ _ (found system) refl
          get_directory_callback-IsReading))

  file_of_row-IsReading : (row : Row) → IsReading (file_of_row system row)
  unfolding file_of_row
  file_of_row-IsReading row = lifted-IsReading (file_new system _ _ _ _ _) _ (λ file.
      lifted-IsReading (read (column_text row 4)) _ (λ path.
        lifted-IsReading (read (column_text row 9)) _ (λ created_at.
          lifted-IsReading (read (column_text row 10)) _ (λ updated_at. return-IsReading _))))

  get_file_callback-IsReading :
      (row : Row) (arg : Option File) → IsReading (get_file_callback system row arg)
  unfolding get_file_callback
  get_file_callback-IsReading row arg =
      bind-IsReading (file_of_row system row) _ (file_of_row-IsReading row)
        (λ file. return-IsReading (some file))

  pub file_find_by_id-IsReading : (id : ℤ) → IsReading (file_find_by_id system id)
  unfolding file_find_by_id
  file_find_by_id-IsReading id = with_pool-IsReading system none _ (
      lifted-IsReading (convert_long_to_string system id) _ (λ value.
        query-IsReading system keeper (get_file_callback system) none _ _ (found system) refl
          get_file_callback-IsReading))

  pointed_to_string-IsReading : (id : Option ℤ) → IsReading (pointed_to_string system id)
  unfolding pointed_to_string
  pointed_to_string-IsReading none = return-IsReading none
  pointed_to_string-IsReading (some id) =
      lifted-IsReading (convert_long_to_string system id) _ (λ text. return-IsReading (some text))

  pub file_find_by_name-IsReading :
      (name : Text) (group_id : ℤ) (directory_id : Option ℤ)
      → IsReading (file_find_by_name system name group_id directory_id)
  unfolding file_find_by_name
  file_find_by_name-IsReading name group_id directory_id = with_pool-IsReading system none _ (
      lifted-IsReading (convert_long_to_string system group_id) _ (λ group.
        bind-IsReading (pointed_to_string system directory_id) _
          (pointed_to_string-IsReading directory_id)
          (λ directory.
            query-IsReading system keeper (get_file_callback system) none _ _ (found system) refl
              get_file_callback-IsReading)))

  kept_group-IsReading :
      (directory : Directory) (group : Option Group) → IsReading (kept_group system directory group)
  kept_group-IsReading directory (some group) = return-IsReading (some group, directory)
  kept_group-IsReading directory none =
      bind-IsReading (group_find_by_id system directory.group_id) _
        (group_find_by_id-IsReading system keeper directory.group_id) (λ group. return-IsReading _)

  pub directory_get_group-IsReading :
      (directory : Directory) → IsReading (directory_get_group system directory)
  unfolding directory_get_group
  directory_get_group-IsReading directory = kept_group-IsReading directory directory.group

  get_directories_callback-IsReading :
      (row : Row) (list : LinkedList Node) → IsReading (get_directories_callback system row list)
  unfolding get_directories_callback
  get_directories_callback-IsReading row list =
      bind-IsReading (get_directory_callback system row none) _
        (get_directory_callback-IsReading row none)
        (λ found_directory.
          lifted-IsReading (read found_directory) _ (λ directory. lift-IsReading _))

  get_files_callback-IsReading :
      (row : Row) (list : LinkedList Node) → IsReading (get_files_callback system row list)
  unfolding get_files_callback
  get_files_callback-IsReading row list =
      bind-IsReading (file_of_row system row) _ (file_of_row-IsReading row)
        (λ file. lift-IsReading _)

  pub if-IsReading :
      {A : Type 0} (b : Bool) (m n : Handler W A)
      → IsReading m
      → IsReading n
      → IsReading (if b then m else n)
  if-IsReading true m n h k = h
  if-IsReading false m n h k = k

  -- The query for the directories and the one for the files, with a value each.
  nodes-IsReading :
      (sql sql' : String) (values : List (Option Text))
      → is_select sql ≡ true
      → is_select sql' ≡ true
      → IsReading (
          exec system
            (some (get_directories_callback system))
            LinkedList.linked_list_constructor
            sql
            values
          >>= λ directories.
              if int_eq directories.0 (pos 0)
              then (exec system (some (get_files_callback system)) directories.1 sql' values
                  >>= λ nodes. return (if int_eq nodes.0 (pos 0) then some nodes.1 else none))
              else return none)
  nodes-IsReading sql sql' values s s' =
      bind-IsReading
        (exec system (some (get_directories_callback system)) LinkedList.linked_list_constructor sql
          values)
        _
        (exec-IsReading system keeper (get_directories_callback system) _ sql values s
          get_directories_callback-IsReading)
        (λ directories.
          if-IsReading (int_eq directories.0 (pos 0)) _ _
            (query-IsReading system keeper (get_files_callback system) directories.1 sql' values _
              s' get_files_callback-IsReading)
            (return-IsReading none))

  pub get_root_node_by_group-IsReading :
      (group_id : ℤ) → IsReading (get_root_node_by_group system group_id)
  unfolding get_root_node_by_group
  get_root_node_by_group-IsReading group_id = with_pool-IsReading system none _ (
      lifted-IsReading (convert_long_to_string system group_id) _
        (λ id. nodes-IsReading _ _ (some id ∷ []) refl refl))

  pub directory_get_children-IsReading :
      (directory : Directory) → IsReading (directory_get_children system none directory)
  unfolding directory_get_children directory_get_children_by_id
  directory_get_children-IsReading directory = with_pool-IsReading system none _ (
      lifted-IsReading (convert_long_to_string system directory.id) _
        (λ id. nodes-IsReading _ _ (some id ∷ []) refl refl))
