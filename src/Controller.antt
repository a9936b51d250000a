-- ===== src/Controller.antt =====
-- src/http/controller/user_controller.c and group_controller.c, with the responses and
-- `get_user_from_request` of src/http/helper/helper.c. A request is answered by one handler.
pub mod Response
pub mod Auth
pub mod Users
pub mod Groups
pub mod Members
pub mod Directories
pub mod Files
pub mod Sessions
pub mod Refusals
pub mod Owners
pub mod NodeOwners
pub mod Creations
pub mod MakeDirectory
pub mod NodeReaders
pub mod Memberships
pub mod Permissions
pub mod Accounts
pub mod Bounds
