-- ===== src/Tests/Disk.antt =====
-- Files under their paths, for the tests of src/networking/tftp.
use file_share_server.Common.{
  ℕ, ◌≡◌, ◌≢◌, refl, ap, sym, ◌∙◌, Bool, true, false, Option, none, some, List, [], ◌++◌, length,
  if◌then◌else◌, ℤ, pos, negsuc, int_eq, inl, inr, Bool-cases, arith,
}
use file_share_server.Database.{Text, System}
use file_share_server.Tftp.{Writer}
use file_share_server.Tftp.Local.{IsLocalWriter}
use file_share_server.Tftp.Blocks.{IsFileWriter}
use file_share_server.Tests.Server.{strcmp, server}
use file_share_server.Tests.Strings.{strcmp_refl, strcmp-zero}

abbrev pub Disk : Type 0
Disk = Text → Option (List ℕ)

abbrev is_path : Text → Text → Bool
is_path path other = int_eq (strcmp path other) (pos 0)

abbrev put_file : Text → Option (List ℕ) → Disk → Disk
put_file path content disk other = if is_path path other then content else disk other

abbrev appended : List ℕ → Option (List ℕ) → Option (List ℕ)
appended bytes none = none
appended bytes (some content) = some (content ++ bytes)

abbrev pub disk_writer : Writer Disk
disk_writer = record {
  create = λ path disk. some (put_file path (some []) disk);
  fwrite = λ path bytes disk. (length bytes, put_file path (appended bytes (disk path)) disk);
  is_full = λ disk. false;
}

abbrev exists : Option (List ℕ) → ℤ
exists none = negsuc 0
exists (some content) = pos 0

abbrev pub disk_system : System Disk
disk_system = record {
  prepare = λ disk sql values. none;
  last_insert_rowid = λ disk. pos 0;
  column_int = (server []).column_int;
  column_int64 = (server []).column_int64;
  print_long = (server []).print_long;
  atoi = (server []).atoi;
  atol = (server []).atol;
  strcmp = strcmp;
  strtok = (server []).strtok;
  seconds_since = λ text disk. pos 0;
  local_time = λ disk. [];
  garbage = pos 9;
  strstr = (server []).strstr;
  strrchr = λ text c. none;
  heap = [];
  mkdir = λ path disk. (negsuc 0, disk);
  opendir = λ path disk. none;
  stat = λ path disk. none;
  unlink = λ path disk. (negsuc 0, disk);
  rmdir = λ path disk. (negsuc 0, disk);
  remove = λ path disk. (pos 0, put_file path none disk);
  access = λ path disk. exists (disk path);
  fopen = λ path disk. disk path;
  pools = (server []).pools;
}

abbrev read_at : Text → Option Disk → Option (List ℕ)
read_at path none = none
read_at path (some disk) = disk path

int_eq_zero : (z : ℤ) → int_eq z (pos 0) ≡ true → z ≡ pos 0
int_eq_zero (pos n) h = ap pos (ground arith)
int_eq_zero (negsuc n) h = cc

put_file_same :
    (path : Text) (content : Option (List ℕ)) (disk : Disk)
    → put_file path content disk path ≡ content
put_file_same path content disk = rw (strcmp_refl path) refl

put_file_others :
    (path other : Text) (content : Option (List ℕ)) (disk : Disk)
    → other ≢ path
    → put_file path content disk other ≡ disk other
put_file_others path other content disk differs = elim (Bool-cases (is_path path other)) [
  | inl same ↦
      absurd (differs (sym (strcmp-zero path other (int_eq_zero (strcmp path other) same))))
  | inr away ↦ rw away refl
]

pub disk-IsLocalWriter : IsLocalWriter disk_system disk_writer
disk-IsLocalWriter = record {
  create_others = λ path other w w' e differs.
      ap (λ made. read_at other made) (sym e) ∙ put_file_others path other (some []) w differs;
  fwrite_others =
      λ path other bytes w differs. put_file_others path other (appended bytes (w path)) w differs;
  remove_others = λ path other w differs. put_file_others path other none w differs;
}

pub disk-IsFileWriter : IsFileWriter disk_system disk_writer
disk-IsFileWriter = record {
  create_empty =
      λ path w w' e. ap (λ made. read_at path made) (sym e) ∙ put_file_same path (some []) w;
  fwrite_count = λ path bytes w. refl;
  fwrite_appends = λ path bytes content w e.
      put_file_same path (appended bytes (w path)) w ∙ ap (appended bytes) e;
}
