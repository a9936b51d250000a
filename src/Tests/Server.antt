-- ===== src/Tests/Server.antt =====
-- A server with one user, one group and one session, whose state counts what is written.
use Prim.Native.String.{String}
use file_share_server.Common.{
  ℕ, suc, ◌+◌, ◌-◌, ◌==◌, ltb, sym, ap, ◌∙◌, Bool, true, false, ◌&&◌, ◌||◌, Option, none, some,
  List, [], ◌∷◌, take, if◌then◌else◌, ℤ, pos, negsuc,
}
use file_share_server.Base64.{codes}
use file_share_server.Tree.{Tree, null, node}
use file_share_server.Dictionary.{Dictionary, Entry}
use file_share_server.Database.{Text, Row, Run, Pools, System}
use file_share_server.Database.Selects.{KeepsSelects, is_select}
use file_share_server.Model.Support.{text_eq}
use file_share_server.Controller.Response.{Request}

abbrev pub strcmp : Text → Text → ℤ
strcmp [] [] = pos 0
strcmp [] (b ∷ bs) = negsuc 0
strcmp (a ∷ rest) [] = pos 1
strcmp (a ∷ rest) (b ∷ bs) =
    let tail = strcmp rest bs in if ltb b a then pos 1 else if ltb a b then negsuc 0 else tail

abbrev pub is_prefix : Text → Text → Bool
is_prefix [] text = true
is_prefix (a ∷ part) [] = false
is_prefix (a ∷ part) (b ∷ text) = (a == b) && is_prefix part text

abbrev pub strstr : Text → Text → Bool
strstr [] part = is_prefix part []
strstr (a ∷ text) part = is_prefix part (a ∷ text) || strstr text part

abbrev column_int : Option Text → ℤ
column_int none = pos 0
column_int (some []) = pos 0
column_int (some (digit ∷ rest)) = pos (digit - 48)

abbrev print_long : ℤ → Text
print_long (pos n) = (n + 48) ∷ []
print_long (negsuc n) = b'-' ∷ []

abbrev split : Text → Text × Option Text
split [] = ([], none)
split (c ∷ rest) =
    let tail = split rest in if c == b' ' then ([], some rest) else (c ∷ tail.0, tail.1)

abbrev one_row : List Text → List Row
one_row [] = [] ∷ []
one_row (text ∷ texts) = elim (one_row texts) [ [] ↦ [] | ◌∷◌ row rows ↦ (some text ∷ row) ∷ [] ]

abbrev begins : String → String → Bool
begins sql start = text_eq (take 13 (codes sql)) (codes start)

-- A directory and a file of the group, which belong to the user and may be written.
abbrev directory_row : Row
directory_row =
    some (codes "4")
    ∷ some (codes "docs")
    ∷ some (codes "2")
    ∷ some (codes "xyz/docs")
    ∷ none
    ∷ some (codes "3")
    ∷ some (codes "1")
    ∷ some (codes "2022")
    ∷ some (codes "2023")
    ∷ []

abbrev file_row : Row
file_row =
    some (codes "6")
    ∷ some (codes "a")
    ∷ some (codes "5")
    ∷ some (codes "2")
    ∷ some (codes "xyz/a")
    ∷ none
    ∷ some (codes "3")
    ∷ some (codes "1")
    ∷ some (codes "1")
    ∷ some (codes "2022")
    ∷ some (codes "2023")
    ∷ []

-- The rows of a query; `members` are those of the query for a member.
abbrev rows_of : List Row → String → List Row
rows_of members sql =
    if begins sql "SELECT id, us"
    then one_row (codes "7" ∷ codes "1" ∷ codes "abc" ∷ codes "2022-12-01 00:00:00" ∷ [])
    else if begins sql "SELECT id, di"
    then one_row (codes "1" ∷ codes "Ann" ∷ codes "ann" ∷ codes "pw" ∷ codes "1" ∷ [])
    else if begins sql "SELECT id, na"
    then one_row (
        codes "3"
        ∷ codes "g"
        ∷ codes "d"
        ∷ codes "a"
        ∷ codes "1"
        ∷ codes "1"
        ∷ codes "xyz"
        ∷ codes "2022"
        ∷ [])
    else if begins sql "SELECT token "
    then one_row (codes "0123456789abcdef0123456789abcdef0123456789abcdef0123456789abcdef" ∷ [])
    else if begins sql "SELECT 1 FROM"
    then members
    else if text_eq (take 15 (codes sql)) (codes "SELECT * FROM d")
    then directory_row ∷ []
    else if text_eq (take 15 (codes sql)) (codes "SELECT * FROM f")
    then file_row ∷ []
    else []

abbrev singleton : {A : Type 0} → Text → A → Dictionary Text A
singleton name value = record {
  bst = node null (record { key = name; value = value }) null;
  keys = record { items = name ∷ []; count = 1 };
}

abbrev default_pools : Pools
default_pools =
    singleton (codes "default")
      (some (record { path = codes "test.sqlite"; name = codes "default" }))

abbrev run_of : List Row → String → ℕ → Run ℕ
run_of members sql w = record {
  rows = rows_of members sql;
  code = 101;
  after = if is_select sql then w else suc w;
}

abbrev pub server : List Row → System ℕ
server members = record {
  prepare = λ w sql values. some (run_of members sql w);
  last_insert_rowid = λ w. pos 3;
  column_int = column_int;
  column_int64 = column_int;
  print_long = print_long;
  atoi = λ text. column_int (some text);
  atol = λ text. column_int (some text);
  strcmp = strcmp;
  strtok = λ text. some (split text);
  seconds_since = λ text w. pos 5000000;
  local_time = λ w. codes "2022-12-02 00:00:00";
  garbage = pos 9;
  strstr = strstr;
  strrchr = λ text c. none;
  heap = [];
  mkdir = λ path w. (pos 0, suc w);
  opendir = λ path w. some [];
  stat = λ path w. none;
  unlink = λ path w. (pos 0, suc w);
  rmdir = λ path w. (pos 0, suc w);
  remove = λ path w. (pos 0, suc w);
  access = λ path w. pos 0;
  fopen = λ path w. none;
  pools = default_pools;
}

-- A server whose tables are empty.
abbrev pub blank_server : System ℕ
blank_server = record (server []) {
  prepare = λ w sql values.
      some (record { rows = []; code = 101; after = if is_select sql then w else suc w });
}

abbrev run_after : {W : Type 0} → Option (Run W) → W → W
run_after none w = w
run_after (some run) w = run.after

pub server-KeepsSelects : (members : List Row) → KeepsSelects (server members)
server-KeepsSelects members = record {
  select_keeps = λ w sql values run s e. sym (ap (λ o. run_after o w) e) ∙ rw s;
}

pub blank_server-KeepsSelects : KeepsSelects blank_server
blank_server-KeepsSelects = record {
  select_keeps = λ w sql values run s e. sym (ap (λ o. run_after o w) e) ∙ rw s;
}

-- The body gives the group's code; the header carries the base64 of "abc".
abbrev pub request : Request
request = record {
  header_fields = singleton (codes "Authorization") (codes "Basic YWJj");
  body = singleton (codes "code") (codes "xyz");
  query = singleton (codes "code") (codes "xyz");
}

-- The keys in ascending order, with their values.
abbrev fields_of : List (Text × Text) → Tree (Entry Text Text)
fields_of [] = null
fields_of (f ∷ fs) = node (fields_of fs) (record { key = f.0; value = f.1 }) null

abbrev keys_of : List (Text × Text) → List Text
keys_of [] = []
keys_of (f ∷ fs) = f.0 ∷ keys_of fs

-- As `request`, with the directory, the file and the group, and a name, a path, a permission and a
-- size, in the body and in the query.
abbrev node_fields : List (Text × Text)
node_fields =
    (codes "directory_id", codes "4")
    ∷ (codes "file_id", codes "6")
    ∷ (codes "group_id", codes "3")
    ∷ (codes "name", codes "b")
    ∷ (codes "path", codes "xyz/b")
    ∷ (codes "permission", codes "2")
    ∷ (codes "size", codes "5")
    ∷ []

abbrev pub node_request : Request
node_request = record request {
  body = record {
    bst = fields_of node_fields;
    keys = record { items = keys_of node_fields; count = 7 };
  };
  query = record {
    bst = fields_of node_fields;
    keys = record { items = keys_of node_fields; count = 7 };
  };
}

-- As `request`, with the user that is to leave the group.
abbrev pub kick_request : Request
kick_request = record request {
  body = record {
    bst =
        node (node null (record { key = codes "member_id"; value = codes "1" }) null)
          (record { key = codes "code"; value = codes "xyz" }) null;
    keys = record { items = codes "code" ∷ codes "member_id" ∷ []; count = 2 };
  };
}

-- A login with the password `word`, or a registration.
abbrev pub account_request : Text → Request
account_request word = record request {
  body = record {
    bst =
        node (node null (record { key = codes "username"; value = codes "ann" }) null)
          (record { key = codes "password"; value = word })
          (node null (record { key = codes "display_name"; value = codes "Ann" }) null);
    keys = record {
      items = codes "password" ∷ codes "username" ∷ codes "display_name" ∷ [];
      count = 3;
    };
  };
}

abbrev pub member_rows : List Row
member_rows = one_row (codes "1" ∷ [])
