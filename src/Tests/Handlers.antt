-- ===== src/Tests/Handlers.antt =====
-- The theorems on the handlers at requests to the server of `Tests.Server`.
use file_share_server.Common.{ℕ, pos, ◌≡◌, refl, none, some, [], done, false}
use file_share_server.Base64.{
  codes, base64_decode, decode_loop, decode_triple, sextet, decoding_table,
}
use file_share_server.Tree
use file_share_server.LinkedList
use file_share_server.Dictionary.{search, entry_constructor, compare_string_keys}
use file_share_server.Database.{Text, System, with_pool, get_pool, exec, execute, step_loop}
use file_share_server.Model.Support.{convert_long_to_string, remove_directory, entries_loop}
use file_share_server.Model.User.{User, user_find_by_id, find_user_callback, user_new}
use file_share_server.Model.Session.{
  Session, delete_session, is_expired, get_user, session_find_by_token, find_session_callback,
  session_new,
}
use file_share_server.Model.Group.{
  Group, group_find_by_code, get_group_callback, group_new, group_is_member, group_remove,
  group_update, group_leave, group_add_member, group_to_json, group_get_members,
  get_group_members_callback,
}
use file_share_server.Controller.Response.{Response, field, list_json, format_200, json_response}
use file_share_server.Controller.Auth.{get_user_from_request, token_of_request, user_of_session}
use file_share_server.Controller.Refusals.{Refused}
use file_share_server.Controller.Groups.{delete_group, update_group, edited}
use file_share_server.Controller.Members.{
  get_group_members, join_group, leave_group, kick_member_group,
}
use file_share_server.Controller.Users.{logout}
use file_share_server.Controller.Owners.{IsOwner}
use file_share_server.Controller.Permissions.{
  deletion, joining, answer_owner-IsOwner, answer_membership-IsMembership,
}
use file_share_server.Controller.Memberships.{IsMembership}
use file_share_server.Controller.Accounts.{logout-is_sender}
use file_share_server.Controller.Response.{Response, json_response}
use file_share_server.Common.{◌++◌}
use file_share_server.Tests.Server.{server, server-KeepsSelects, request, kick_request, member_rows}

abbrev empty_server : System ℕ
empty_server = server []

abbrev member_server : System ℕ
member_server = server member_rows

deleted : delete_group empty_server request 5 ≡ done (format_200, 7)
unfolding delete_group group_remove remove_directory entries_loop field search entry_constructor
    compare_string_keys Tree.search Tree.iterate Tree.descend Tree.cursor_data get_user_from_request
    token_of_request user_of_session is_expired get_user session_find_by_token find_session_callback
    session_new with_pool get_pool exec execute step_loop convert_long_to_string user_find_by_id
    find_user_callback user_new base64_decode decode_loop decode_triple sextet decoding_table
    group_find_by_code get_group_callback group_new group_is_member
deleted = refl

abbrev group_json : Response
group_json = json_response (
    codes
      "{\"id\":3,\"name\":\"g\",\"description\":\"d\",\"avatar\":\"a\",\"status\":1,\"code\": \"xyz\",\"owner_id\":1,\"created_at\":\"2022\"}")

answer_owner-IsOwner_example :
    Refused {W = ℕ} 5 format_200 7 (IsOwner empty_server request.body request 5)
answer_owner-IsOwner_example =
    answer_owner-IsOwner empty_server (server-KeepsSelects []) request 5 format_200 7 deletion
      deleted

updated : update_group empty_server request 5 ≡ done (group_json, 6)
unfolding update_group group_update edited group_to_json field search entry_constructor
    compare_string_keys Tree.search Tree.iterate Tree.descend Tree.cursor_data get_user_from_request
    token_of_request user_of_session is_expired get_user session_find_by_token find_session_callback
    session_new with_pool get_pool exec execute step_loop convert_long_to_string user_find_by_id
    find_user_callback user_new base64_decode decode_loop decode_triple sextet decoding_table
    group_find_by_code get_group_callback group_new group_is_member
updated = refl

kicked : kick_member_group member_server kick_request 5 ≡ done (format_200, 6)
unfolding kick_member_group group_leave field search entry_constructor compare_string_keys
    Tree.search Tree.iterate Tree.descend Tree.cursor_data get_user_from_request token_of_request
    user_of_session is_expired get_user session_find_by_token find_session_callback session_new
    with_pool get_pool exec execute step_loop convert_long_to_string user_find_by_id
    find_user_callback user_new base64_decode decode_loop decode_triple sextet decoding_table
    group_find_by_code get_group_callback group_new group_is_member
kicked = refl

abbrev members_json : Response
members_json = json_response (codes "[]")

listed : get_group_members empty_server request 5 ≡ done (members_json, 5)
unfolding get_group_members group_get_members get_group_members_callback list_json
    LinkedList.list_to_json LinkedList.json_loop LinkedList.linked_list_constructor field search
    entry_constructor compare_string_keys Tree.search Tree.iterate Tree.descend Tree.cursor_data
    get_user_from_request token_of_request user_of_session is_expired get_user session_find_by_token
    find_session_callback session_new with_pool get_pool exec execute step_loop
    convert_long_to_string user_find_by_id find_user_callback user_new base64_decode decode_loop
    decode_triple sextet decoding_table group_find_by_code get_group_callback group_new
    group_is_member
listed = refl

joined : join_group empty_server request 5 ≡ done (group_json, 6)
unfolding join_group group_add_member group_to_json field search entry_constructor
    compare_string_keys Tree.search Tree.iterate Tree.descend Tree.cursor_data get_user_from_request
    token_of_request user_of_session is_expired get_user session_find_by_token find_session_callback
    session_new with_pool get_pool exec execute step_loop convert_long_to_string user_find_by_id
    find_user_callback user_new base64_decode decode_loop decode_triple sextet decoding_table
    group_find_by_code get_group_callback group_new group_is_member
joined = refl

answer_membership-IsMembership_example :
    Refused {W = ℕ} 5 group_json 6 (IsMembership empty_server false request 5)
answer_membership-IsMembership_example =
    answer_membership-IsMembership empty_server (server-KeepsSelects []) request 5 group_json 6
      joining joined

left : leave_group member_server request 5 ≡ done (format_200, 6)
unfolding leave_group group_leave field search entry_constructor compare_string_keys Tree.search
    Tree.iterate Tree.descend Tree.cursor_data get_user_from_request token_of_request
    user_of_session is_expired get_user session_find_by_token find_session_callback session_new
    with_pool get_pool exec execute step_loop convert_long_to_string user_find_by_id
    find_user_callback user_new base64_decode decode_loop decode_triple sextet decoding_table
    group_find_by_code get_group_callback group_new group_is_member
left = refl

abbrev encoded_token : Text
encoded_token =
    codes "MDEyMzQ1Njc4OWFiY2RlZjAxMjM0NTY3ODlhYmNkZWYwMTIzNDU2Nzg5YWJjZGVmMDEyMzQ1Njc4OWFiY2RlZg=="

abbrev token_response : Response
token_response = json_response (codes "{\"token\": \"" ++ (encoded_token ++ codes "\"}"))

logged_out : logout empty_server request 5 ≡ done (format_200, 6)
unfolding logout delete_session field search entry_constructor compare_string_keys Tree.search
    Tree.iterate Tree.descend Tree.cursor_data get_user_from_request token_of_request
    user_of_session is_expired get_user session_find_by_token find_session_callback session_new
    with_pool get_pool exec execute step_loop convert_long_to_string user_find_by_id
    find_user_callback user_new base64_decode decode_loop decode_triple sextet decoding_table
    group_find_by_code get_group_callback group_new group_is_member
logged_out = refl

logout-is_sender_example : Refused {W = ℕ} 5 format_200 6 (
    (user : User) × (token : Text) × (session : Session) × (get_user_from_request empty_server
        request
        (some 100)
        5
      ≡ done ((some user, token), 5))
    × (session_find_by_token empty_server token 5 ≡ done (some session, 5)))
logout-is_sender_example =
    logout-is_sender empty_server (server-KeepsSelects []) request 5 format_200 6 logged_out

abbrev ann : User
ann = record {
  id = pos 1;
  display_name = codes "Ann";
  username = codes "ann";
  password = codes "pw";
  status = pos 1;
}

abbrev group : Group
group = record {
  id = pos 3;
  name = codes "g";
  description = some (codes "d");
  avatar = some (codes "a");
  owner_id = pos 1;
  status = pos 1;
  code = some (codes "xyz");
  created_at = some (codes "2022");
  owner = none;
  members = none;
}
