-- ===== src/Model/Directory.antt =====
-- src/model/directory.c. The pointers `_parent` and `_children` of a directory are arguments of the
-- functions that read them; what these return is what the directory keeps.
pub mod Storage
use file_share_server.Common.{
  ℕ, Option, none, some, [], ◌∷◌, ◌++◌, ℤ, pos, negsuc, int_eq, not, if◌then◌else◌, Outcome, done,
  fault,
}
use file_share_server.Base64.{codes}
use file_share_server.Database.{Text, Row, System, column_text, exec, execute, with_pool}
use file_share_server.Database.Handlers.{Handler, return, lift, ◌>>=◌}
use file_share_server.Model.Support.{
  fit, read, as_unsigned, as_int, convert_long_to_string, nonzero_to_string, convert_int_to_string,
  get_current_time, create_directory, remove_directory,
}
use file_share_server.Model.User.{User, user_find_by_id, found}
use file_share_server.Model.Group.{Group, group_find_by_id, upload_dir, depth}

pub record Directory : Type 0 where
  pub id : ℤ
  pub name : Text
  pub permission : ℕ
  pub path : Option Text
  pub parent_id : ℤ
  pub group_id : ℤ
  pub owner_id : ℤ
  pub created_at : Option Text
  pub updated_at : Option Text
  pub owner : Option User
  pub group : Option Group

abbrev pub read_permission : ℕ
read_permission = 1

abbrev pub write_permission : ℕ
write_permission = 2

-- Freeing NULL or a pointer that is not initialised is a fault.
unfoldable pub directory_free : Option Directory → Outcome (Unit {0})
directory_free none = fault
directory_free (some directory) = elim directory.created_at [
  | none ↦ fault
  | some created_at ↦ elim directory.updated_at [ none ↦ fault | some updated_at ↦ done tt ]
]

-- A column that may be NULL, as the pointer to its value.
abbrev pub pointed : Option Text → ℤ → Option ℤ
pointed none value = none
pointed (some text) value = some value

-- `pointer == NULL ? 0 : *pointer`.
abbrev pub zero_or : Option ℤ → ℤ
zero_or none = pos 0
zero_or (some value) = value

module _ {W : Type 0} (system : System W) where
  -- `id`, `created_at` and `updated_at` are not initialised.
  unfoldable pub directory_new : Option Text → ℤ → ℤ → Option ℤ → Outcome Directory
  directory_new none user_id group_id parent_id = fault
  directory_new (some name) user_id group_id parent_id = done (record {
    id = system.garbage;
    name = name;
    permission = read_permission;
    path = none;
    parent_id = zero_or parent_id;
    group_id = group_id;
    owner_id = user_id;
    created_at = none;
    updated_at = none;
    owner = none;
    group = none;
  })

  -- `_get_directory_callback`.
  unfoldable pub get_directory_callback : Row → Option Directory → Handler W (Option Directory)
  get_directory_callback res arg = do
    directory ← lift (
        directory_new (column_text res 1) (system.column_int64 (column_text res 6))
          (system.column_int64 (column_text res 5))
          (pointed (column_text res 4) (system.column_int64 (column_text res 4))))
    path ← lift (read (column_text res 3))
    created_at ← lift (read (column_text res 7))
    updated_at ← lift (read (column_text res 8))
    return (
        some (record directory {
          id = system.column_int64 (column_text res 0);
          permission = as_unsigned (system.column_int (column_text res 2));
          path = some path;
          created_at = some created_at;
          updated_at = some updated_at;
        }))

  unfoldable pub directory_find_by_id : ℤ → Handler W (Option Directory)
  directory_find_by_id id = with_pool system none (do
    value ← lift (convert_long_to_string system id)
    result ←
        exec system (some get_directory_callback) none "SELECT * FROM directories WHERE id = ?"
          (some value ∷ [])
    return (found system result))

  -- `_owner` where it is not NULL; the owner, and the directory that keeps it.
  pub directory_get_owner : Directory → Handler W (Option User × Directory)
  directory_get_owner directory = elim directory.owner [
    | some user ↦ return (some user, directory)
    | none ↦ do
      user ← user_find_by_id system directory.owner_id
      return (user, record directory { owner = user })
  ]

  -- `_group` where it is not NULL; the group, and the directory that keeps it.
  abbrev pub kept_group : Directory → Option Group → Handler W (Option Group × Directory)
  kept_group directory (some group) = return (some group, directory)
  kept_group directory none = do
    group ← group_find_by_id system directory.group_id
    return (group, record directory { group = group })

  unfoldable pub directory_get_group : Directory → Handler W (Option Group × Directory)
  directory_get_group directory = kept_group directory directory.group

  pub directory_get_parent : Option Directory → Directory → Handler W (Option Directory)
  directory_get_parent parent directory =
      if int_eq directory.parent_id (pos 0) then return none else elim parent [
        | some parent ↦ return (some parent)
        | none ↦ directory_find_by_id directory.parent_id
      ]

  unfoldable pub directory_json : Directory → Outcome Text
  directory_json directory = elim directory.path [
    | none ↦ fault
    | some path ↦ elim directory.created_at [
      | none ↦ fault
      | some created_at ↦ elim directory.updated_at [
        | none ↦ fault
        | some updated_at ↦ fit 4096 (
            codes "{\"id\":"
            ++ system.print_long directory.id
            ++ codes ",\"name\":\""
            ++ directory.name
            ++ codes "\",\"path\":\""
            ++ path
            ++ codes "\",\"owner_id\":"
            ++ system.print_long directory.owner_id
            ++ codes ",\"parent_id\":"
            ++ system.print_long directory.parent_id
            ++ codes ",\"permission\":"
            ++ system.print_long (as_int directory.permission)
            ++ codes ",\"group_id\":"
            ++ system.print_long directory.group_id
            ++ codes ",\"created_at\":\""
            ++ created_at
            ++ codes "\",\"updated_at\":\""
            ++ updated_at
            ++ codes "\"}")
      ]
    ]
  ]
