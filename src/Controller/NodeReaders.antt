-- ===== src/Controller/NodeReaders.antt =====
-- The handlers of directory_controller.c and file_controller.c that show what is stored.
use file_share_server.Common.{
  ◌≡◌, refl, ◌∙◌, true, Option, none, some, int_eq, not, ℤ, pos, done, arith, inr,
}
use file_share_server.LinkedList
use file_share_server.LinkedList.{LinkedList}
use file_share_server.Base64.{codes}
use file_share_server.Database.{Text, System}
use file_share_server.Database.Handlers.{Handler, lift, ◌>>=◌}
use file_share_server.Database.Selects.{KeepsSelects, IsReading, return-IsReading, bind-IsReading}
use file_share_server.Model.Support.{read}
use file_share_server.Model.User.{User}
use file_share_server.Model.Group.{Group, group_find_by_id, group_is_member}
use file_share_server.Model.Directory.{
  Directory, directory_find_by_id, directory_get_group, directory_free, directory_json,
}
use file_share_server.Model.File.{File, file_find_by_id, file_to_json}
use file_share_server.Model.Nodes.{directory_get_children, get_root_node_by_group}
use file_share_server.Model.Queries.{group_find_by_id-IsReading, group_is_member-IsReading}
use file_share_server.Model.Reads.{
  directory_find_by_id-IsReading, directory_get_group-IsReading, file_find_by_id-IsReading,
  directory_get_children-IsReading, get_root_node_by_group-IsReading, lifted-IsReading,
}
use file_share_server.Controller.Response.{
  Request, Response, field, require, refuse, list_json, json_response, format_400, format_401,
  format_403, format_404, format_422, format_500,
}
use file_share_server.Controller.Auth.{get_user_from_request}
use file_share_server.Controller.Sessions.{get_user_from_request-IsReading}
use file_share_server.Controller.Refusals.{
  Refused, require-Refused, refuse-Refused, lift-Refused, read-Refused,
}
use file_share_server.Controller.Directories.{
  node_to_json, get_directory_children, get_group_node_tree, get_directory_info,
}
use file_share_server.Controller.Files.{get_file}
use file_share_server.Controller.Creations.{require-IsReading}

-- The handlers that show a directory, its nodes, the nodes of a group or a file.
pub data Query : Type 0 where
  directory_children : Query
  directory_info : Query
  group_node_tree : Query
  file_info : Query

module _ {W : Type 0} (system : System W) (request : Request) where
  abbrev pub answer_query : Query → Handler W Response
  answer_query directory_children = get_directory_children system request
  answer_query directory_info = get_directory_info system request
  answer_query group_node_tree = get_group_node_tree system request
  answer_query file_info = get_file system request

  -- The group is that of the directory that the query names.
  abbrev GroupOfDirectory : W → Group → Type 0
  GroupOfDirectory w group =
      (id : Text) × (directory : Directory) × (keeping : Directory) × (field system request.query
          (codes "directory_id")
        ≡ done (some id))
      × (directory_find_by_id system (system.atol id) w ≡ done (some directory, w))
      × (directory_get_group system directory w ≡ done ((some group, keeping), w))

  -- The group is the one that the request is about.
  abbrev pub Concerns : Query → W → Group → Type 0
  Concerns directory_children w group = GroupOfDirectory w group
  Concerns directory_info w group = GroupOfDirectory w group
  Concerns group_node_tree w group =
      (id : Text) × (field system request.query (codes "group_id") ≡ done (some id))
      × (group_find_by_id system (system.atol id) w ≡ done (some group, w))
  Concerns file_info w group =
      (id : Text) × (file : File) × (field system request.body (codes "file_id") ≡ done (some id))
      × (file_find_by_id system (system.atol id) w ≡ done (some file, w))
      × (group_find_by_id system file.group_id w ≡ done (some group, w))

-- The token is that of a member of the group that the request is about.
pub record IsReader {W : Type 0} (system : System W) (request : Request) (query : Query) (w : W)
    : Type 0 where
  pub user : User
  pub token : Text
  pub group : Group
  pub is_member : ℤ
  pub authenticated : get_user_from_request system request none w ≡ done ((some user, token), w)
  pub concerned : Concerns system request query w group
  pub counted : group_is_member system group user w ≡ done (is_member, w)
  pub member : int_eq is_member (pos 1) ≡ true

module _ {W : Type 0} (system : System W) (keeper : KeepsSelects system) (request : Request) (w : W)
    (r : Response) (w' : W) where
  -- The state is as it was, and the request is by a member.
  abbrev Shown : Query → Type 0
  Shown query = (w' ≡ w) × IsReader system request query w

  -- The test of the membership, and what follows it.
  abbrev member_gate : Group → User → Handler W Response → Handler W Response
  member_gate group user rest = do
    is_member ← group_is_member system group user
    refuse (not (int_eq is_member (pos 1))) format_403 rest

  member_gate-Refused :
      (query : Query) (group : Group) (who : Option User × Text) (user : User)
      (rest : Handler W Response)
      → get_user_from_request system request none w ≡ done (who, w)
      → who.0 ≡ some user
      → Concerns system request query w group
      → IsReading rest
      → member_gate group user rest w ≡ done (r, w')
      → Refused w r w' (Shown query)
  member_gate-Refused query group who user rest authenticated is_user concerned reading h =
      read-Refused w r w' (group_is_member system group user) _
        (group_is_member-IsReading system keeper group user)
        (λ m counted.
          refuse-Refused w r w' (not (int_eq m (pos 1))) format_403 rest refl (λ member e. inr (
            reading.keeps w r w' e,
            record {
              user = user;
              token = who.1;
              group = group;
              is_member = m;
              authenticated = authenticated ∙ rw is_user;
              concerned = concerned;
              counted = counted;
              member = ground arith;
            },
          )))
        h

  -- The searches of the two handlers of directories, and what follows them.
  abbrev directory_gate : Text → (Directory → Handler W Response) → Handler W Response
  directory_gate id rest = do
    (found, token) ← get_user_from_request system request none
    require found format_401 (λ user. do
      found_directory ← directory_find_by_id system (system.atol id)
      require found_directory format_404 (λ directory. do
        (found_group, keeping) ← directory_get_group system directory
        group ← lift (read found_group)
        member_gate group user (rest keeping)))

  read-some : {A : Type 0} (o : Option A) (a : A) → read o ≡ done a → o ≡ some a
  read-some none a h = cc
  read-some (some b) a h = cc

  directory_gate-Refused :
      (query : Query) (id : Text) (rest : Directory → Handler W Response)
      → ((group : Group)
          → GroupOfDirectory system request w group
          → Concerns system request query w group)
      → field system request.query (codes "directory_id") ≡ done (some id)
      → ((directory : Directory) → IsReading (rest directory))
      → directory_gate id rest w ≡ done (r, w')
      → Refused w r w' (Shown query)
  directory_gate-Refused query id rest concerned names reading h =
      read-Refused w r w' (get_user_from_request system request none) _
        (get_user_from_request-IsReading system keeper request none)
        (λ who authenticated. require-Refused w r w' who.0 format_401 _ refl (λ user is_user.
          read-Refused w r w' (directory_find_by_id system (system.atol id)) _
            (directory_find_by_id-IsReading system keeper (system.atol id))
            (λ found stored.
              require-Refused w r w' found format_404 _ refl (λ directory is_directory.
                read-Refused w r w' (directory_get_group system directory) _
                  (directory_get_group-IsReading system keeper directory)
                  (λ kept grouped. lift-Refused w r w' (read kept.0) _ (λ group is_group.
                    member_gate-Refused query group who user (rest kept.1) authenticated is_user
                      (concerned group (
                        id,
                        directory,
                        kept.1,
                        names,
                        stored ∙ rw is_directory,
                        grouped ∙ rw (read-some kept.0 group is_group),
                      ))
                      (reading kept.1)))))))
        h

  get_directory_children-Shown :
      get_directory_children system request w ≡ done (r, w')
      → Refused w r w' (Shown directory_children)
  unfolding get_directory_children
  get_directory_children-Shown h =
      lift-Refused w r w' (field system request.query (codes "directory_id")) _
        (λ id named. require-Refused w r w' id format_422 _ refl (λ i is_id.
          directory_gate-Refused directory_children i _ (λ group g. g) (named ∙ rw is_id)
            (λ keeping.
              bind-IsReading (directory_get_children system none keeping) _
                (directory_get_children-IsReading system keeper keeping)
                (λ found. require-IsReading found format_500 _ (λ children.
                  lifted-IsReading system keeper (list_json (node_to_json system) (some children)) _
                    (λ json.
                      lifted-IsReading system keeper (directory_free (some keeping)) _
                        (λ freed. return-IsReading (json_response json))))))))
        h

  get_directory_info-Shown :
      get_directory_info system request w ≡ done (r, w') → Refused w r w' (Shown directory_info)
  unfolding get_directory_info
  get_directory_info-Shown h =
      lift-Refused w r w' (field system request.query (codes "directory_id")) _
        (λ id named. require-Refused w r w' id format_422 _ refl (λ i is_id.
          directory_gate-Refused directory_info i _ (λ group g. g) (named ∙ rw is_id)
            (λ keeping. lifted-IsReading system keeper (directory_json system keeping) _ (λ json.
              lifted-IsReading system keeper (directory_free (some keeping)) _
                (λ freed. return-IsReading (json_response json))))))
        h

  get_group_node_tree-Shown :
      get_group_node_tree system request w ≡ done (r, w') → Refused w r w' (Shown group_node_tree)
  unfolding get_group_node_tree
  get_group_node_tree-Shown h =
      lift-Refused w r w' (field system request.query (codes "group_id")) _
        (λ id named. require-Refused w r w' id format_422 _ refl (λ i is_id.
          read-Refused w r w' (get_user_from_request system request none) _
            (get_user_from_request-IsReading system keeper request none)
            (λ who authenticated. require-Refused w r w' who.0 format_401 _ refl (λ user is_user.
              read-Refused w r w' (group_find_by_id system (system.atol i)) _
                (group_find_by_id-IsReading system keeper (system.atol i))
                (λ found stored. require-Refused w r w' found format_404 _ refl (λ group is_group.
                  member_gate-Refused group_node_tree group who user _ authenticated is_user
                    (i, named ∙ rw is_id, stored ∙ rw is_group)
                    (bind-IsReading (get_root_node_by_group system group.id) _
                      (get_root_node_by_group-IsReading system keeper group.id)
                      (λ nodes. require-IsReading nodes format_500 _ (λ children.
                        lifted-IsReading system keeper
                          (list_json (node_to_json system) (some children)) _
                          (λ json.
                            lifted-IsReading system keeper
                              (LinkedList.linked_list_destructor children) _
                              (λ destroyed. return-IsReading (json_response json))))))))))))
        h

  get_file-Shown : get_file system request w ≡ done (r, w') → Refused w r w' (Shown file_info)
  unfolding get_file
  get_file-Shown h =
      lift-Refused w r w' (field system request.body (codes "file_id")) _
        (λ id named. require-Refused w r w' id format_422 _ refl (λ i is_id.
          read-Refused w r w' (get_user_from_request system request none) _
            (get_user_from_request-IsReading system keeper request none)
            (λ who authenticated. require-Refused w r w' who.0 format_401 _ refl (λ user is_user.
              read-Refused w r w' (file_find_by_id system (system.atol i)) _
                (file_find_by_id-IsReading system keeper (system.atol i))
                (λ found stored. require-Refused w r w' found format_400 _ refl (λ file is_file.
                  read-Refused w r w' (group_find_by_id system file.group_id) _
                    (group_find_by_id-IsReading system keeper file.group_id)
                    (λ found_group grouped.
                      require-Refused w r w' found_group format_400 _ refl (λ group is_group.
                        member_gate-Refused file_info group who user _ authenticated is_user
                          (i, file, named ∙ rw is_id, stored ∙ rw is_file, grouped ∙ rw is_group)
                          (lifted-IsReading system keeper (file_to_json system file) _
                            (λ json. return-IsReading (json_response json)))))))))))
        h

  -- Where SELECTs do not write: a handler that shows a directory, its nodes, the nodes of a group or
  -- a file, if it returns, has left the database and the files as they were, and it has refused the
  -- request or the request is by a member of the group of what it shows.
  pub answer_query-IsReader :
      (query : Query)
      → answer_query system request query w ≡ done (r, w')
      → Refused w r w' ((w' ≡ w) × IsReader system request query w)
  answer_query-IsReader directory_children h = get_directory_children-Shown h
  answer_query-IsReader directory_info h = get_directory_info-Shown h
  answer_query-IsReader group_node_tree h = get_group_node_tree-Shown h
  answer_query-IsReader file_info h = get_file-Shown h
