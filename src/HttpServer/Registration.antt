-- ===== src/HttpServer/Registration.antt =====
-- The routes that src/main/http.c and `http_init_handler` of src/main.c register.
use file_share_server.Common.{List, [], ◌∷◌, ℤ, Outcome, done, ◌>>=◌}
use file_share_server.Base64.{codes}
use file_share_server.Database.{Text}
use file_share_server.Dictionary.{dictionary_constructor}
use file_share_server.HttpServer.{
  Routes, HttpMethod, get, post, put, delete, method_code, register_routes,
}
use file_share_server.HttpServer.Callbacks.{
  Callback, login, register_user, get_me_info, get_user_info, get_my_groups, logout, create_group,
  update_group, get_group_members, delete_group, join_group, leave_group, kick_member_group,
  get_group_node_tree, make_directory, delete_directory, update_directory, get_directory_children,
  get_directory_info, create_file, save_file, delete_file, update_file, get_file,
}

-- The arguments of a call of `register_routes` with one method.
pub record Registration : Type 0 where
  pub callback : Callback
  pub uri : Text
  pub method : HttpMethod

abbrev registration : Callback → Text → HttpMethod → Registration
registration callback uri method = record { callback = callback; uri = uri; method = method }

-- The calls of `register_routes`, in their order.
abbrev pub registrations : List Registration
registrations =
    registration login (codes "/login") post
    ∷ registration register_user (codes "/register") post
    ∷ registration get_me_info (codes "/me/info") get
    ∷ registration get_user_info (codes "/user/info") get
    ∷ registration get_my_groups (codes "/me/group") get
    ∷ registration logout (codes "/logout") post
    ∷ registration create_group (codes "/group/create") post
    ∷ registration update_group (codes "/group/update") put
    ∷ registration get_group_members (codes "/group/members") get
    ∷ registration delete_group (codes "/group/delete") delete
    ∷ registration join_group (codes "/group/join") post
    ∷ registration leave_group (codes "/group/leave") post
    ∷ registration kick_member_group (codes "/group/kick") post
    ∷ registration get_group_node_tree (codes "/group/node") get
    ∷ registration make_directory (codes "/directory/create") post
    ∷ registration delete_directory (codes "/directory/delete") delete
    ∷ registration update_directory (codes "/directory/update") put
    ∷ registration get_directory_children (codes "/directory/getchild") get
    ∷ registration get_directory_info (codes "/directory/info") get
    ∷ registration create_file (codes "/file/create") post
    ∷ registration save_file (codes "/file/save") post
    ∷ registration delete_file (codes "/file/delete") delete
    ∷ registration update_file (codes "/file/update") put
    ∷ registration get_file (codes "/file/info") get
    ∷ []

module _ (strcmp : Text → Text → ℤ) (left : List ℤ) where
  unfoldable pub register_all : List Registration → Routes → Outcome Routes
  register_all [] routes = done routes
  register_all (r ∷ rest) routes = do
    registered ← register_routes strcmp left routes r.callback r.uri (method_code r.method ∷ [])
    register_all rest registered

  -- The routes of the server when it is launched.
  unfoldable pub server_routes : Outcome Routes
  unfolding register_all
  server_routes = register_all registrations dictionary_constructor
