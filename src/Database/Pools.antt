-- ===== src/Database/Pools.antt =====
-- `connect_db`, `add_pool` and `get_pool` of db.c.
use file_share_server.Common.{
  ◌<◌, ◌≡◌, ◌∙◌, sym, Bool, Option, none, some, ℤ, pos, negsuc, if◌then◌else◌, done, arith, length,
}
use file_share_server.LinkedList.Access.{IsValid}
use file_share_server.Dictionary
use file_share_server.Dictionary.{compare_string_keys}
use file_share_server.Dictionary.Strings.{IsStrcmp}
use file_share_server.Dictionary.Lookup.{lookup, grown, search-lookup, insert-grown, lookup-grown}
use file_share_server.Database.{Text, Pool, Pools, named, get_pool, add_pool, connect_db}

not_held : {A : Type 0} {o : Option A} → done o ≡ done none → o ≡ none
not_held h = cc

module _ (strcmp : Text → Text → ℤ) (s : IsStrcmp strcmp) (sqlite3_open : Text → Bool)
    (manager : Pools) (uri : Text) (name : Option Text) where
  abbrev pool : Pool
  pool = record { path = uri; name = named name }

  held :
      lookup strcmp s none manager (named name) ≡ none
      → lookup strcmp s none (grown strcmp s none manager (named name) (some pool)) (named name)
        ≡ some (some pool)
  held absent = ground (
    arith,
    lookup-grown strcmp s none manager (named name) (named name) (some pool),
    s.zero_iff (named name) (named name),
  )

  -- Where the keys of the manager are counted and it has no pool of that name, whose length is not
  -- 0, `connect_db` opens the database and keeps the pool even if that fails: `get_pool` finds it
  -- under the name, and NULL stands for the name "default" in both.
  pub get_pool-connect_db :
      IsValid manager.keys
      → 0 < length (named name)
      → Dictionary.search (compare_string_keys strcmp) none manager (named name) ≡ done none
      → (pools : Pools) × (connect_db strcmp sqlite3_open manager uri name
          ≡ done (if sqlite3_open uri then pos 0 else negsuc 0, pools))
        × (get_pool strcmp pools name ≡ done (some (record { path = uri; name = named name })))
  unfolding connect_db add_pool get_pool
  get_pool-connect_db valid long fresh =
      let absent = not_held (sym (search-lookup strcmp s none manager (named name)) ∙ fresh) in
      let after = grown strcmp s none manager (named name) (some pool) in
      (
        after,
        rw fresh (
            rw (
              insert-grown strcmp s none manager (named name) (length (named name)) (some pool)
                valid long)),
        rw (search-lookup strcmp s none after (named name)) (rw (held absent)),
      )
