-- ===== src/Model/Support.antt =====
-- The functions of src/utils/helper.c that the models call, and the C library's copies.
use file_share_server.Common.{
  ℕ, zero, suc, ◌-◌, ◌%◌, ◌^◌, ◌==◌, ltb, if◌then◌else◌, Bool, true, false, ◌&&◌, ◌||◌, not, Option,
  none, some, List, [], ◌∷◌, ◌++◌, length, ℤ, pos, negsuc, int_eq, Outcome, done, fault, ◌>>=◌,
}
use file_share_server.Base64.{codes}
use file_share_server.Database.{Text, System, directory, other}
use file_share_server.Database.Handlers.{lift}

-- The lowest 32 bits of a value as an `int`.
abbrev pub to_int : ℤ → ℤ
to_int (pos n) =
    let low = n % 4294967296 in if ltb low 2147483648 then pos low else negsuc (4294967295 - low)
to_int (negsuc n) =
    let low = n % 4294967296 in if ltb low 2147483648 then negsuc low else pos (4294967295 - low)

-- A text and its terminator written to a buffer of `size` bytes.
abbrev pub fit : ℕ → Text → Outcome Text
fit size text = if ltb (length text) size then done text else fault

-- `strdup`, and what else reads a pointer.
abbrev pub read : {A : Type 0} → Option A → Outcome A
read none = fault
read (some a) = done a

-- `strcpy` to an array of `size` bytes.
abbrev pub strcpy : ℕ → Option Text → Outcome Text
strcpy size none = fault
strcpy size (some text) = fit size text

-- A string in an array of bytes ends at the first 0.
abbrev pub c_string : Text → Text
c_string [] = []
c_string (b ∷ bs) = let rest = c_string bs in if b == 0 then [] else b ∷ rest

abbrev pub text_eq : Text → Text → Bool
text_eq [] [] = true
text_eq (a ∷ rest) (b ∷ bs) = (a == b) && text_eq rest bs
text_eq [] (b ∷ bs) = false
text_eq (a ∷ rest) [] = false

-- An `enum Permission`, which is an `unsigned int`, is assigned a `long`.
abbrev pub as_unsigned : ℤ → ℕ
as_unsigned (pos n) = n % 2 ^ 32
as_unsigned (negsuc n) = 2 ^ 32 - 1 - n % 2 ^ 32

-- What "%d" reads of it.
abbrev pub as_int : ℕ → ℤ
as_int n = if ltb n (2 ^ 31) then pos n else negsuc (2 ^ 32 - 1 - n)

module _ {W : Type 0} (system : System W) where
  unfoldable pub convert_long_to_string : ℤ → Outcome Text
  convert_long_to_string l = fit 10 (system.print_long l)

  -- `id != 0 ? convert_long_to_string(id) : NULL`.
  unfoldable pub nonzero_to_string : ℤ → Outcome (Option Text)
  nonzero_to_string id =
      if int_eq id (pos 0)
      then done none
      else (convert_long_to_string id >>= λ text. done (some text))

  -- `malloc(10)` and "%d".
  unfoldable pub convert_int_to_string : ℤ → Outcome Text
  convert_int_to_string i = fit 10 (system.print_long i)

  unfoldable pub get_current_time : W → Outcome (Text × W)
  get_current_time w = lift (fit 20 (system.local_time w)) w

  pub create_directory : Text → W → ℤ × W
  create_directory path = system.mkdir path

  -- The loop over the names of a directory, its own calls being `remove`.
  unfoldable pub entries_loop :
      (Text → W → Outcome (ℤ × W)) → Text → List Text → ℤ → W → Outcome (ℤ × W)
  entries_loop remove path [] r w = done (r, w)
  entries_loop remove path (name ∷ names) r w =
      if not (int_eq r (pos 0))
      then done (r, w)
      else if text_eq name (codes ".") || text_eq name (codes "..")
      then entries_loop remove path names r w
      else elim (system.stat (path ++ codes "/" ++ name) w) [
        | none ↦ entries_loop remove path names (negsuc 0) w
        | some directory ↦ remove (path ++ codes "/" ++ name) w >>= λ result.
            entries_loop remove path names result.0 result.1
        | some other ↦
            let result = system.unlink (path ++ codes "/" ++ name) w in
            entries_loop remove path names result.0 result.1
      ]

  -- `fuel` bounds the depth of the calls: one too deep overflows the stack.
  unfoldable pub remove_directory : ℕ → Text → W → Outcome (ℤ × W)
  unfolding entries_loop
  remove_directory zero path w = fault
  remove_directory (suc fuel) path w = elim (system.opendir path w) [
    | none ↦ done (negsuc 0, w)
    | some names ↦ entries_loop (remove_directory fuel) path names (pos 0) w >>= λ result.
        if int_eq result.0 (pos 0) then done (system.rmdir path result.1) else done result
  ]
