-- ===== src/Controller/MakeDirectory.antt =====
-- `make_directory` of directory_controller.c: the directory that it answers with has no date of its
-- last update.
use file_share_server.Common.{
  ◌≡◌, refl, true, false, Option, none, some, Option-cases, Bool-cases, inl, inr, ℤ, pos, negsuc,
  int_eq, not, ◌++◌, done, fault,
}
use file_share_server.Base64.{codes}
use file_share_server.Database.{Text, System}
use file_share_server.Database.Handlers.{return, lift, ◌>>=◌}
use file_share_server.Database.Selects.{KeepsSelects, IsReading, return-IsReading, next-eq-done}
use file_share_server.Database.Results.{
  Gives, return-Gives, bind-Gives, carry-Gives, if-Gives, with_pool-Gives,
}
use file_share_server.Model.Support.{
  read, fit, get_current_time, create_directory, remove_directory,
}
use file_share_server.Model.User.{User}
use file_share_server.Model.Group.{Group, group_find_by_id, group_is_member, upload_dir, depth}
use file_share_server.Model.Directory.{
  Directory, directory_new, directory_find_by_id, directory_get_group, kept_group, directory_free,
  directory_json,
}
use file_share_server.Model.Directory.Storage.{
  find_path, placed_in, placed_under, insert_directory, save_at, directory_save,
}
use file_share_server.Model.Queries.{
  group_find_by_id-IsReading, group_is_member-IsReading, group_has_directory-IsReading,
}
use file_share_server.Controller.Response.{
  Request, Response, field, nonzero, format_401, format_403, format_404, format_422,
}
use file_share_server.Controller.Auth.{get_user_from_request}
use file_share_server.Controller.Sessions.{get_user_from_request-IsReading}
use file_share_server.Controller.Refusals.{
  is_refusal, Refused, require-Refused, refuse-Refused, lift-Refused, read-Refused,
}
use file_share_server.Controller.Directories.{
  make_directory, has_parent, parent_pointer, answer_made,
}

never : {A P : Type 0} {a : A} → fault ≡ done a → P
never h = cc

module _ {W : Type 0} (system : System W) where
  abbrev Undated : Directory → Type 0
  Undated directory = directory.updated_at ≡ none

  abbrev IsUndated : {A : Type 0} → A × Directory → Type 0
  IsUndated result = Undated result.1

  kept_group-Undated :
      (directory : Directory) (group : Option Group)
      → Undated directory
      → Gives IsUndated (kept_group system directory group)
  kept_group-Undated directory (some group) u = return-Gives IsUndated (some group, directory) u
  kept_group-Undated directory none u =
      bind-Gives IsUndated (group_find_by_id system directory.group_id) _
        (λ group. return-Gives IsUndated _ u)

  placed_in-Undated :
      (directory : Directory) (parent : Option Directory)
      → Undated directory
      → Gives IsUndated (placed_in system directory parent)
  placed_in-Undated directory none u = return-Gives IsUndated (none, directory) u
  placed_in-Undated directory (some parent) u =
      bind-Gives IsUndated (lift (read parent.path)) _ (λ parent_path.
        bind-Gives IsUndated (lift (directory_free (some parent))) _
          (λ freed. return-Gives IsUndated _ u))

  placed_under-Undated :
      (directory : Directory) (group : Option Group)
      → Undated directory
      → Gives IsUndated (placed_under system directory group)
  placed_under-Undated directory none u = return-Gives IsUndated (none, directory) u
  placed_under-Undated directory (some group) u =
      bind-Gives IsUndated (lift (read group.code)) _ (λ code. return-Gives IsUndated _ u)

  find_path-Undated :
      (directory : Directory) → Undated directory → Gives IsUndated (find_path system directory)
  unfolding find_path directory_get_group
  find_path-Undated directory u =
      if-Gives IsUndated (not (int_eq directory.parent_id (pos 0))) _ _
        (bind-Gives IsUndated (directory_find_by_id system directory.parent_id) _
          (λ parent. placed_in-Undated directory parent u))
        (carry-Gives IsUndated IsUndated (directory_get_group system directory) _
          (kept_group-Undated directory directory.group u)
          (λ keeping v. placed_under-Undated keeping.1 keeping.0 v))

  save_at-Undated :
      (path : Option Text) (directory : Directory)
      → Undated directory
      → Gives IsUndated (save_at system path directory)
  save_at-Undated none directory u = return-Gives IsUndated (negsuc 0, directory) u
  save_at-Undated (some path) directory u =
      bind-Gives IsUndated (lift (fit 1024 (upload_dir ++ codes "/" ++ path))) _ (λ fullpath.
        bind-Gives IsUndated (λ w. done (create_directory system fullpath w)) _
          (λ made.
            if-Gives IsUndated (not (int_eq made (pos 0))) _ _
              (return-Gives IsUndated (negsuc 0, directory) u)
              (bind-Gives IsUndated (insert_directory system path directory) _ (λ res.
                if-Gives IsUndated (int_eq res (pos 0)) _ _
                  (bind-Gives IsUndated (get_current_time system) _ (λ created_at.
                    bind-Gives IsUndated (λ w. return (system.last_insert_rowid w) w) _
                      (λ last_id.
                        return-Gives IsUndated
                          (pos 0, record directory { id = last_id; created_at = some created_at })
                          u)))
                  (bind-Gives IsUndated (remove_directory system depth path) _
                    (λ removed. return-Gives IsUndated (negsuc 0, directory) u))))))

  directory_save-Undated :
      (directory : Directory)
      → Undated directory
      → Gives IsUndated (directory_save system directory)
  unfolding directory_save
  directory_save-Undated directory u =
      with_pool-Gives system IsUndated (negsuc 0, directory) _ u
        (carry-Gives IsUndated IsUndated (find_path system directory) _
          (find_path-Undated directory u) (λ found v. save_at-Undated found.0 found.1 v))

  directory_new-Undated :
      (name : Text) (user_id group_id : ℤ) (parent_id : Option ℤ) (directory : Directory)
      → directory_new system (some name) user_id group_id parent_id ≡ done directory
      → Undated directory
  unfolding directory_new
  directory_new-Undated name user_id group_id parent_id directory e = cc

  directory_free-fault :
      (directory : Directory) → Undated directory → directory_free (some directory) ≡ fault
  unfolding directory_free
  directory_free-fault directory u = elim (Option-cases directory.created_at) [
    | inl e ↦ rw e
    | inr created ↦ rw (created.1, u)
  ]

  directory_json-fault :
      (directory : Directory) → Undated directory → directory_json system directory ≡ fault
  unfolding directory_json
  directory_json-fault directory u = elim (Option-cases directory.path) [
    | inl e ↦ rw e
    | inr placed ↦ elim (Option-cases directory.created_at) [
      | inl e ↦ rw (placed.1, e)
      | inr created ↦ rw (placed.1, created.1, u)
    ]
  ]

  answer_made-fault :
      (result : ℤ × Directory) (w : W) → Undated result.1 → answer_made system result w ≡ fault
  unfolding answer_made
  answer_made-fault result w u = elim (Bool-cases (nonzero result.0)) [
    | inl failed ↦ rw (failed, directory_free-fault result.1 u)
    | inr saved ↦ rw (saved, directory_json-fault result.1 u)
  ]

  module _ (keeper : KeepsSelects system) (request : Request) (w : W) (r : Response) (w' : W) where
    unmade :
        (name : Text) (user : User) (group : Group) (parent_id : Option Text)
        → (lift (
                directory_new system (some name) user.id group.id (parent_pointer system parent_id))
              >>= λ directory. directory_save system directory >>= answer_made system)
            w
          ≡ done (r, w')
        → Refused w r w' (true ≡ false)
    unmade name user group parent_id e =
        lift-Refused w r w' (directory_new system (some name) user.id group.id _) _
          (λ directory made e1.
            let (result, w1, e2, e3) =
              next-eq-done (directory_save system directory w) (answer_made system) e1 in
            let undated =
              directory_new-Undated name user.id group.id (parent_pointer system parent_id)
                directory made in
            let still = (directory_save-Undated directory undated).gives w result w1 e2 in
            never (rw (answer_made-fault result w1 still) at e3))
          e

    has_parent-IsReading :
        (group : Group) (parent_id : Option Text) → IsReading (has_parent system group parent_id)
    unfolding has_parent
    has_parent-IsReading group none = return-IsReading (pos 1)
    has_parent-IsReading group (some parent_id) =
        group_has_directory-IsReading system keeper group (system.atol parent_id)

    make_directory-Refused :
        make_directory system request w ≡ done (r, w') → Refused w r w' (true ≡ false)
    unfolding make_directory
    make_directory-Refused h =
        lift-Refused w r w' (field system request.body (codes "name")) _
          (λ name n. lift-Refused w r w' (field system request.body (codes "group_id")) _ (λ id i.
            lift-Refused w r w' (field system request.body (codes "parent_id")) _ (λ parent_id p.
              require-Refused w r w' name format_422 _ refl (λ name' is_name.
                require-Refused w r w' id format_422 _ refl (λ id' is_id.
                  read-Refused w r w' (group_find_by_id system (system.atol id')) _
                    (group_find_by_id-IsReading system keeper (system.atol id'))
                    (λ found stored.
                      require-Refused w r w' found format_404 _ refl (λ group is_group.
                        read-Refused w r w' (has_parent system group parent_id) _
                          (has_parent-IsReading group parent_id)
                          (λ parent has.
                            refuse-Refused w r w' (not (int_eq parent (pos 1))) format_403 _ refl
                              (λ held.
                                read-Refused w r w' (get_user_from_request system request none) _
                                  (get_user_from_request-IsReading system keeper request none)
                                  (λ who authenticated.
                                    require-Refused w r w' who.0 format_401 _ refl (λ user is_user.
                                      read-Refused w r w' (group_is_member system group user) _
                                        (group_is_member-IsReading system keeper group user)
                                        (λ m counted.
                                          refuse-Refused w r w' (not (int_eq m (pos 1))) format_403
                                            _ refl
                                            (λ member.
                                              unmade name' user group parent_id)))))))))))))
          h

    -- Where SELECTs do not write: a `make_directory` that returns has refused the request and left
    -- the database and the files as they were.
    pub make_directory_refuses :
        make_directory system request w ≡ done (r, w') → (w' ≡ w) × (is_refusal r ≡ true)
    make_directory_refuses h = elim (make_directory-Refused h) [
      | inl refused ↦ refused
      | inr absent ↦ cc
    ]
