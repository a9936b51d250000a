-- ===== src/Model/File.antt =====
-- src/model/file.c.
pub mod Storage
use file_share_server.Common.{
  ℕ, ◌+◌, Option, none, some, List, [], ◌∷◌, ◌++◌, ℤ, pos, negsuc, int_eq, not, if◌then◌else◌,
  Outcome, done, fault,
}
use file_share_server.Base64.{codes}
use file_share_server.Database.{Text, Row, System, column_text, exec, execute, with_pool}
use file_share_server.Database.Handlers.{Handler, return, lift, ◌>>=◌}
use file_share_server.Model.Support.{
  fit, read, as_unsigned, as_int, convert_long_to_string, nonzero_to_string, get_current_time,
}
use file_share_server.Model.User.{User, user_find_by_id, found}
use file_share_server.Model.Group.{Group, group_find_by_id, upload_dir}
use file_share_server.Model.Directory.{
  Directory, directory_find_by_id, pointed, zero_or, read_permission,
}

pub record File : Type 0 where
  pub id : ℤ
  pub name : Text
  pub size : ℤ
  pub permission : ℕ
  pub path : Option Text
  pub directory_id : ℤ
  pub group_id : ℤ
  pub owner_id : ℤ
  pub modified_by : ℤ
  pub created_at : Option Text
  pub updated_at : Option Text
  pub owner : Option User
  pub modifier : Option User
  pub group : Option Group
  pub directory : Option Directory

module _ {W : Type 0} (system : System W) where
  -- `id` is not initialised.
  unfoldable pub file_new : Option Text → ℤ → ℤ → ℤ → Option ℤ → Outcome File
  file_new none size user_id group_id directory_id = fault
  file_new (some fullname) size user_id group_id directory_id = done (record {
    id = system.garbage;
    name = fullname;
    size = size;
    permission = read_permission;
    path = none;
    directory_id = zero_or directory_id;
    group_id = group_id;
    owner_id = user_id;
    modified_by = user_id;
    created_at = none;
    updated_at = none;
    owner = none;
    modifier = none;
    group = none;
    directory = none;
  })

  -- The body of `_get_file_callback` and of `_get_files_callback` up to the use of `file`: the
  -- directory's id is read from the column of the permission.
  unfoldable pub file_of_row : Row → Handler W File
  file_of_row res = do
    file ← lift (
        file_new (column_text res 1) (system.column_int64 (column_text res 2))
          (system.column_int64 (column_text res 7)) (system.column_int64 (column_text res 6))
          (pointed (column_text res 5) (system.column_int64 (column_text res 3))))
    path ← lift (read (column_text res 4))
    created_at ← lift (read (column_text res 9))
    updated_at ← lift (read (column_text res 10))
    return (record file {
      id = system.column_int64 (column_text res 0);
      permission = as_unsigned (system.column_int64 (column_text res 3));
      path = some path;
      modified_by = system.column_int64 (column_text res 8);
      created_at = some created_at;
      updated_at = some updated_at;
    })

  -- `_get_file_callback`.
  unfoldable pub get_file_callback : Row → Option File → Handler W (Option File)
  get_file_callback res arg = do file ← file_of_row res; return (some file)

  unfoldable pub file_find_by_id : ℤ → Handler W (Option File)
  file_find_by_id id = with_pool system none (do
    value ← lift (convert_long_to_string system id)
    result ←
        exec system (some get_file_callback) none "SELECT * FROM files WHERE id = ?"
          (some value ∷ [])
    return (found system result))

  -- `pointer != NULL ? convert_long_to_string(*pointer) : NULL`.
  unfoldable pub pointed_to_string : Option ℤ → Handler W (Option Text)
  pointed_to_string none = return none
  pointed_to_string (some id) = do
    text ← lift (convert_long_to_string system id)
    return (some text)

  unfoldable pub file_find_by_name : Text → ℤ → Option ℤ → Handler W (Option File)
  file_find_by_name name group_id directory_id = with_pool system none (do
    group ← lift (convert_long_to_string system group_id)
    directory ← pointed_to_string directory_id
    result ←
        exec system (some get_file_callback) none
          "SELECT * FROM files WHERE name = ? AND group_id = ? AND directory_id = ?"
          (some name ∷ some group ∷ directory ∷ [])
    return (found system result))

  -- `_directory` where it is not NULL; the directory, and the file that keeps it.
  unfoldable pub file_get_directory : File → Handler W (Option Directory × File)
  file_get_directory file =
      if int_eq file.directory_id (pos 0) then return (none, file) else elim file.directory [
        | some directory ↦ return (some directory, file)
        | none ↦ do
          directory ← directory_find_by_id system file.directory_id
          return (directory, record file { directory = directory })
      ]

  pub file_get_group : File → Handler W (Option Group × File)
  file_get_group file = elim file.group [
    | some group ↦ return (some group, file)
    | none ↦ do
      group ← group_find_by_id system file.group_id
      return (group, record file { group = group })
  ]

  pub file_get_owner : File → Handler W (Option User × File)
  file_get_owner file = elim file.owner [
    | some user ↦ return (some user, file)
    | none ↦ do
      user ← user_find_by_id system file.owner_id
      return (user, record file { owner = user })
  ]

  pub file_get_modified_user : File → Handler W (Option User × File)
  file_get_modified_user file = elim file.modifier [
    | some user ↦ return (some user, file)
    | none ↦ do
      user ← user_find_by_id system file.modified_by
      return (user, record file { modifier = user })
  ]

  unfoldable pub file_to_json : File → Outcome Text
  file_to_json file = elim file.path [
    | none ↦ fault
    | some path ↦ elim file.created_at [
      | none ↦ fault
      | some created_at ↦ elim file.updated_at [
        | none ↦ fault
        | some updated_at ↦ fit 4096 (
            codes "{\"id\":"
            ++ system.print_long file.id
            ++ codes ",\"name\":\""
            ++ file.name
            ++ codes "\",\"size\":"
            ++ system.print_long file.size
            ++ codes ",\"permission\":"
            ++ system.print_long (as_int file.permission)
            ++ codes ",\"path\":\""
            ++ path
            ++ codes "\",\"directory_id\":"
            ++ system.print_long file.directory_id
            ++ codes ",\"group_id\":"
            ++ system.print_long file.group_id
            ++ codes ",\"owner_id\":"
            ++ system.print_long file.owner_id
            ++ codes ",\"modified_by\":"
            ++ system.print_long file.modified_by
            ++ codes ",\"created_at\":\""
            ++ created_at
            ++ codes "\",\"updated_at\":\""
            ++ updated_at
            ++ codes "\"}")
      ]
    ]
  ]
