-- ===== src/Tests/Nodes.antt =====
-- The theorems on the handlers of directories and files at requests to the server of `Tests.Server`.
use file_share_server.Common.{ℕ, ◌≡◌, refl, [], done, true, ◌⊎◌, ◌==◌}
use file_share_server.Base64.{
  codes, base64_decode, decode_loop, decode_triple, sextet, decoding_table,
}
use file_share_server.Tree
use file_share_server.Dictionary.{search, entry_constructor, compare_string_keys}
use file_share_server.Database.{System, with_pool, get_pool, exec, execute, step_loop}
use file_share_server.Database.Selects.{IsReading}
use file_share_server.Model.Support.{
  convert_long_to_string, convert_int_to_string, get_current_time, remove_directory, entries_loop,
}
use file_share_server.Model.User.{user_find_by_id, find_user_callback, user_new}
use file_share_server.Model.Session.{
  is_expired, get_user, session_find_by_token, find_session_callback, session_new,
}
use file_share_server.Model.Group.{group_find_by_id, get_group_callback, group_new, group_is_member}
use file_share_server.Model.Directory.{
  directory_new, get_directory_callback, directory_find_by_id, directory_get_group, directory_json,
  directory_free,
}
use file_share_server.Model.Directory.Storage.{directory_remove}
use file_share_server.Model.File.{
  file_new, file_of_row, get_file_callback, file_find_by_id, file_to_json,
}
use file_share_server.Model.File.Storage.{file_remove, file_update}
use file_share_server.Controller.Response.{Response, field, format_200, format_403, json_response}
use file_share_server.Controller.Auth.{get_user_from_request, token_of_request, user_of_session}
use file_share_server.Controller.Refusals.{Refused}
use file_share_server.Controller.Directories.{
  delete_directory, make_directory, has_parent, get_directory_info,
}
use file_share_server.Controller.Files.{create_file, delete_file, update_file, edited_file}
use file_share_server.Controller.NodeOwners.{
  IsDirectoryOwner, IsFileUser, IsEitherOwner, IsMember, delete_file-IsEitherOwner,
  update_file-IsMember,
}
use file_share_server.Model.Directory.{write_permission}
use file_share_server.Controller.Permissions.{removal, answer_directory-IsDirectoryOwner}
use file_share_server.Controller.NodeReaders.{directory_info, IsReader, answer_query-IsReader}
use file_share_server.Controller.Creations.{create_file-IsReading}
use file_share_server.Tests.Server.{server, server-KeepsSelects, node_request, member_rows}

abbrev empty_server : System ℕ
empty_server = server []

abbrev member_server : System ℕ
member_server = server member_rows

deleted : delete_directory empty_server node_request 5 ≡ done (format_200, 7)
unfolding delete_directory directory_remove directory_find_by_id get_directory_callback
    directory_new directory_get_group directory_json directory_free file_find_by_id
    get_file_callback file_of_row file_new group_find_by_id remove_directory entries_loop field
    search entry_constructor compare_string_keys Tree.search Tree.iterate Tree.descend
    Tree.cursor_data get_user_from_request token_of_request user_of_session is_expired get_user
    session_find_by_token find_session_callback session_new with_pool get_pool exec execute
    step_loop convert_long_to_string convert_int_to_string user_find_by_id find_user_callback
    user_new base64_decode decode_loop decode_triple sextet decoding_table get_group_callback
    group_new group_is_member
deleted = refl

answer_directory-IsDirectoryOwner_example :
    Refused {W = ℕ} 5 format_200 7 (IsDirectoryOwner empty_server node_request 5)
answer_directory-IsDirectoryOwner_example =
    answer_directory-IsDirectoryOwner empty_server (server-KeepsSelects []) node_request 5
      format_200 7 removal deleted

file_deleted : delete_file empty_server node_request 5 ≡ done (format_200, 7)
unfolding delete_file file_remove directory_find_by_id get_directory_callback directory_new
    directory_get_group directory_json directory_free file_find_by_id get_file_callback file_of_row
    file_new group_find_by_id remove_directory entries_loop field search entry_constructor
    compare_string_keys Tree.search Tree.iterate Tree.descend Tree.cursor_data get_user_from_request
    token_of_request user_of_session is_expired get_user session_find_by_token find_session_callback
    session_new with_pool get_pool exec execute step_loop convert_long_to_string
    convert_int_to_string user_find_by_id find_user_callback user_new base64_decode decode_loop
    decode_triple sextet decoding_table get_group_callback group_new group_is_member
file_deleted = refl

delete_file-IsEitherOwner_example :
    Refused {W = ℕ} 5 format_200 7
      ((by : IsFileUser empty_server node_request 5) × IsEitherOwner empty_server node_request 5 by)
delete_file-IsEitherOwner_example =
    delete_file-IsEitherOwner empty_server (server-KeepsSelects []) node_request 5 format_200 7
      file_deleted

abbrev file_json : Response
file_json = json_response (
    codes
      "{\"id\":6,\"name\":\"a\",\"size\":5,\"permission\":2,\"path\":\"xyz/a\",\"directory_id\":0,\"group_id\":3,\"owner_id\":1,\"modified_by\":1,\"created_at\":\"2022\",\"updated_at\":\"2022-12-02 00:00:00\"}")

file_updated : update_file empty_server node_request 5 ≡ done (file_json, 6)
unfolding update_file file_update edited_file get_current_time file_to_json directory_find_by_id
    get_directory_callback directory_new directory_get_group directory_json directory_free
    file_find_by_id get_file_callback file_of_row file_new group_find_by_id remove_directory
    entries_loop field search entry_constructor compare_string_keys Tree.search Tree.iterate
    Tree.descend Tree.cursor_data get_user_from_request token_of_request user_of_session is_expired
    get_user session_find_by_token find_session_callback session_new with_pool get_pool exec execute
    step_loop convert_long_to_string convert_int_to_string user_find_by_id find_user_callback
    user_new base64_decode decode_loop decode_triple sextet decoding_table get_group_callback
    group_new group_is_member
file_updated = refl

update_file-IsMember_example : Refused {W = ℕ} 5 file_json 6 (
    (by : IsFileUser empty_server node_request 5) × (IsMember empty_server node_request 5 by
      ⊎ ((by.file.permission == write_permission ≡ true)
          × IsEitherOwner empty_server node_request 5 by)))
update_file-IsMember_example =
    update_file-IsMember empty_server (server-KeepsSelects []) node_request 5 file_json 6
      file_updated

abbrev directory_text : Response
directory_text = json_response (
    codes
      "{\"id\":4,\"name\":\"docs\",\"path\":\"xyz/docs\",\"owner_id\":1,\"parent_id\":0,\"permission\":2,\"group_id\":3,\"created_at\":\"2022\",\"updated_at\":\"2023\"}")

directory_shown : get_directory_info member_server node_request 5 ≡ done (directory_text, 5)
unfolding get_directory_info directory_find_by_id get_directory_callback directory_new
    directory_get_group directory_json directory_free file_find_by_id get_file_callback file_of_row
    file_new group_find_by_id remove_directory entries_loop field search entry_constructor
    compare_string_keys Tree.search Tree.iterate Tree.descend Tree.cursor_data get_user_from_request
    token_of_request user_of_session is_expired get_user session_find_by_token find_session_callback
    session_new with_pool get_pool exec execute step_loop convert_long_to_string
    convert_int_to_string user_find_by_id find_user_callback user_new base64_decode decode_loop
    decode_triple sextet decoding_table get_group_callback group_new group_is_member
directory_shown = refl

answer_query-IsReader_example :
    Refused {W = ℕ} 5 directory_text 5
      ((◌≡◌ {A = ℕ} 5 5) × IsReader member_server node_request directory_info 5)
answer_query-IsReader_example =
    answer_query-IsReader member_server (server-KeepsSelects member_rows) node_request 5
      directory_text 5 directory_info directory_shown

not_made : make_directory empty_server node_request 5 ≡ done (format_403, 5)
unfolding make_directory has_parent directory_find_by_id get_directory_callback directory_new
    directory_get_group directory_json directory_free file_find_by_id get_file_callback file_of_row
    file_new group_find_by_id remove_directory entries_loop field search entry_constructor
    compare_string_keys Tree.search Tree.iterate Tree.descend Tree.cursor_data get_user_from_request
    token_of_request user_of_session is_expired get_user session_find_by_token find_session_callback
    session_new with_pool get_pool exec execute step_loop convert_long_to_string
    convert_int_to_string user_find_by_id find_user_callback user_new base64_decode decode_loop
    decode_triple sextet decoding_table get_group_callback group_new group_is_member
not_made = refl

create_file-IsReading_example : IsReading (create_file empty_server node_request)
create_file-IsReading_example =
    create_file-IsReading empty_server (server-KeepsSelects []) node_request
