-- ===== src/HttpServer/Paths.antt =====
-- `server_resource` of src/networking/http/http_server.c: the files that it opens, and its loop.
use file_share_server.Common.{
  ℕ, zero, suc, ◌+◌, ◌≤◌, ◌<◌, ltb, leb, ◌≡◌, ◌≢◌, refl, sym, ap, ◌∙◌, ◌↔◌, ◌⊎◌, inl, inr, Bool,
  Bool-cases, true, false, Option, none, some, List, [], ◌∷◌, ◌++◌, length, length-append, take,
  drop, ℤ, pos, done, arith, append-nil, append_assoc,
}
use file_share_server.Base64.{codes}
use file_share_server.Database.{Text, System}
use file_share_server.Model.Support.{fit}
use file_share_server.HttpServer.Resources.{
  choose, index, serve_file, server_resource, page_400, page_404, copy_loop, by_extension,
  content_type_of, get_content_type, file_header, file_response,
}

-- The second text stands in the first.
abbrev pub Contains : Text → Text → Type 0
Contains text part = (before : Text) × (behind : Text) × (text ≡ before ++ part ++ behind)

-- What the C standard says of `strstr`.
pub record IsStrstr (strstr : Text → Text → Bool) : Type 0 where
  pub found_iff : (text part : Text) → (strstr text part ≡ true) ↔ Contains text part

abbrev pub dots : Text
dots = codes ".."

-- A first character that is not a dot is in front of the dots.
behind_first : (x : ℕ) (text : Text) → x ≢ 46 → Contains (x ∷ text) dots → Contains text dots
behind_first x text other ([], behind, e) = absurd (other cc)
behind_first x text other (y ∷ before, behind, e) = (before, behind, cc)

behind_public : (text : Text) → Contains (codes "public" ++ text) dots → Contains text dots
behind_public text h =
    behind_first b'c' text (λ e. ground arith)
      (behind_first b'i' _ (λ e. ground arith)
        (behind_first b'l' _ (λ e. ground arith)
          (behind_first b'b' _ (λ e. ground arith)
            (behind_first b'u' _ (λ e. ground arith) (behind_first b'p' _ (λ e. ground arith) h)))))

-- The file of a URI, in the directory "public".
abbrev pub public_path : {W : Type 0} → System W → Text → Text
public_path system uri = codes "public" ++ index system uri

module _ {W : Type 0} (system : System W) (finds : IsStrstr system.strstr) where
  not_contained :
      (uri : Text)
      → system.strstr (index system uri) dots ≡ false
      → ¬ Contains (public_path system uri) dots
  not_contained uri absent h =
      ground
        (arith, (finds.found_iff (index system uri) dots).1 (behind_public (index system uri) h))

  fits :
      (uri : Text)
      → length (index system uri) ≤ 100
      → fit 128 (public_path system uri) ≡ done (public_path system uri)
  fits uri short = ground (arith, length-append (codes "public") (index system uri))

  -- Under a lawful `strstr`: `server_resource` answers with the page for 400 or the one for 404, or it
  -- serves a file whose path, of at most 106 characters, begins with "public" and has no ".." in it;
  -- the path fits its buffer.
  pub server_resource_safe :
      (uri : Text) (w : W)
      → (server_resource system uri w ≡ page_400 system w)
        ⊎ ((server_resource system uri w ≡ page_404 system w)
            ⊎ ((length (public_path system uri) ≤ 106)
                × ¬ Contains (public_path system uri) dots
                × (server_resource system uri w ≡ serve_file system (public_path system uri) w)))
  unfolding server_resource choose
  server_resource_safe uri w = elim (Bool-cases (ltb 100 (length (index system uri)))) [
    | inl long ↦ inl (rw (server_resource, choose, long))
    | inr short ↦ elim (Bool-cases (system.strstr (index system uri) dots)) [
      | inl present ↦ inr (inl (rw (server_resource, choose, short, present)))
      | inr absent ↦
          let small : length (index system uri) ≤ 100 = ground arith in
          inr (
            inr (
              ground (arith, length-append (codes "public") (index system uri)),
              not_contained uri absent,
              rw (server_resource, choose, short, absent, fits uri small),
            ))
    ]
  ]

leb-true : (a b : ℕ) → a ≤ b → leb a b ≡ true
leb-true a b h = ground arith

length-drop : (n : ℕ) (xs : List ℕ) → length (drop n xs) ≤ length xs
length-drop zero xs = omega arith
length-drop (suc n) [] = omega arith
length-drop (suc n) (x ∷ xs) = omega (arith, length-drop n xs)

take-append-drop : (n : ℕ) (xs : List ℕ) → take n xs ++ drop n xs ≡ xs
take-append-drop zero xs = refl
take-append-drop (suc n) [] = refl
take-append-drop (suc n) (x ∷ xs) = ap (λ ys. x ∷ ys) (take-append-drop n xs)

length-take-drop : (n : ℕ) (xs : List ℕ) → length (take n xs) + length (drop n xs) ≡ length xs
length-take-drop n xs =
    sym (length-append (take n xs) (drop n xs)) ∙ ap length (take-append-drop n xs)

module _ {W : Type 0} (system : System W) where
  -- The chunks that are copied make up the file.
  copy_loop-append :
      (fuel : ℕ) (bytes buffer : List ℕ)
      → length bytes < fuel
      → length buffer + length bytes ≤ 1048576
      → copy_loop system fuel bytes buffer ≡ done (buffer ++ bytes)
  unfolding copy_loop
  copy_loop-append zero bytes buffer h k = absurd (omega arith)
  copy_loop-append (suc fuel) [] buffer h k = ap done (sym (append-nil buffer))
  copy_loop-append (suc fuel) (b ∷ bytes) buffer h k =
      let chunk = take 1024 (b ∷ bytes) in
      let rest = drop 1024 (b ∷ bytes) in
      let parts = length-take-drop 1024 (b ∷ bytes) in
      let grown = length-append buffer chunk in
      let room : leb (length buffer + length chunk) 1048576 ≡ true =
        leb-true _ _ (omega (arith, parts)) in
      rw room (
        copy_loop-append fuel rest (buffer ++ chunk) (omega (arith, length-drop 1023 bytes))
          (omega (arith, grown, parts))
        ∙ ap done (
            append_assoc buffer chunk rest
            ∙ ap (λ ys. buffer ++ ys) (take-append-drop 1024 (b ∷ bytes))))

by_extension-short :
    (strcmp : Text → Text → ℤ) (last_dot extension content_type rest : Text)
    → length content_type ≤ 24
    → length rest ≤ 24
    → length (by_extension strcmp last_dot extension content_type rest) ≤ 24
by_extension-short strcmp last_dot extension content_type rest h k = ground arith

content_type-short :
    (strcmp : Text → Text → ℤ) (o : Option Text) → length (content_type_of strcmp o) ≤ 24
content_type-short strcmp none = omega arith
content_type-short strcmp (some dot) =
    by_extension-short strcmp dot (codes ".css") (codes "text/css") _ (omega arith) (
      by_extension-short strcmp dot (codes ".csv") (codes "text/csv") _ (omega arith) (
        by_extension-short strcmp dot (codes ".gif") (codes "image/gif") _ (omega arith) (
          by_extension-short strcmp dot (codes ".htm") (codes "text/html") _ (omega arith) (
            by_extension-short strcmp dot (codes ".html") (codes "text/html") _ (omega arith) (
              by_extension-short strcmp dot (codes ".ico") (codes "image/x-icon") _ (omega arith) (
                by_extension-short strcmp dot (codes ".jpeg") (codes "image/jpeg") _ (omega arith) (
                  by_extension-short strcmp dot (codes ".jpg") (codes "image/jpeg") _ (omega arith)
                    (by_extension-short strcmp dot (codes ".js") (codes "application/javascript") _
                      (omega arith)
                      (by_extension-short strcmp dot (codes ".json") (codes "application/json") _
                        (omega arith)
                        (by_extension-short strcmp dot (codes ".png") (codes "image/png") _
                          (omega arith)
                          (by_extension-short strcmp dot (codes ".pdf") (codes "application/pdf") _
                            (omega arith)
                            (by_extension-short strcmp dot (codes ".svg") (codes "image/svg+xml") _
                              (omega arith)
                              (by_extension-short strcmp dot (codes ".txt") (codes "text/plain") _
                                (omega arith) (omega arith))))))))))))))

module _ {W : Type 0} (system : System W) where
  get_content_type-short : (path : Text) → length (get_content_type system path) ≤ 24
  unfolding get_content_type
  get_content_type-short path = content_type-short system.strcmp (system.strrchr path b'.')

  header-short :
      (path : Text) (size : ℕ)
      → length (file_header system path size) ≤ length (system.print_long (pos size)) + 96
  unfolding file_header
  header-short path size =
      let digits = system.print_long (pos size) in
      let kind = get_content_type system path in
      let first = codes "HTTP/1.1 200 OK\r\nConnection: close\r\nContent-Length: " in
      let middle = codes "\r\nContent-Type: " in
      let last = codes "\r\n\r\n" in
      omega (
        arith,
        get_content_type-short path,
        length-append (first ++ digits ++ middle ++ kind) last,
        length-append (first ++ digits ++ middle) kind,
        length-append (first ++ digits) middle,
        length-append first digits,
      )

  -- For a file of at most 1048473 bytes, whose number of bytes is written with at most seven
  -- characters: the response is the header and, behind it, the file byte by byte.
  pub file_response_whole :
      (path : Text) (bytes : List ℕ)
      → length bytes ≤ 1048473
      → length (system.print_long (pos (length bytes))) ≤ 7
      → file_response system path bytes (length bytes)
        ≡ done (file_header system path (length bytes) ++ bytes)
  unfolding file_response
  file_response_whole path bytes h k =
      copy_loop-append system (suc (length bytes)) bytes (file_header system path (length bytes))
        (omega arith) (omega (arith, header-short path (length bytes)))
