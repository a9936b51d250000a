-- ===== src/HttpServer/Callbacks.antt =====
-- The handlers that src/main/http.c and src/main.c register.
use file_share_server.Database.{System}
use file_share_server.Database.Handlers.{Handler}
use file_share_server.Controller.Response.{Request, Response}
use file_share_server.Controller.Users
use file_share_server.Controller.Groups
use file_share_server.Controller.Members
use file_share_server.Controller.Directories
use file_share_server.Controller.Files

-- A pointer to a handler.
pub data Callback : Type 0 where
  login register_user get_me_info get_user_info get_my_groups logout : Callback
  create_group update_group get_group_members delete_group : Callback
  join_group leave_group kick_member_group get_group_node_tree : Callback
  make_directory delete_directory update_directory : Callback
  get_directory_children get_directory_info : Callback
  create_file save_file delete_file update_file get_file : Callback

module _ {W : Type 0} (system : System W) where
  unfoldable pub call : Callback → Request → Handler W Response
  call login request = Users.login system request
  call register_user request = Users.register_user system request
  call get_me_info request = Users.get_me_info system request
  call get_user_info request = Users.get_user_info system request
  call get_my_groups request = Groups.get_my_groups system request
  call logout request = Users.logout system request
  call create_group request = Groups.create_group system request
  call update_group request = Groups.update_group system request
  call get_group_members request = Members.get_group_members system request
  call delete_group request = Groups.delete_group system request
  call join_group request = Members.join_group system request
  call leave_group request = Members.leave_group system request
  call kick_member_group request = Members.kick_member_group system request
  call get_group_node_tree request = Directories.get_group_node_tree system request
  call make_directory request = Directories.make_directory system request
  call delete_directory request = Directories.delete_directory system request
  call update_directory request = Directories.update_directory system request
  call get_directory_children request = Directories.get_directory_children system request
  call get_directory_info request = Directories.get_directory_info system request
  call create_file request = Files.create_file system request
  call save_file request = Files.save_file system request
  call delete_file request = Files.delete_file system request
  call update_file request = Files.update_file system request
  call get_file request = Files.get_file system request
