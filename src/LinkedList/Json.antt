-- ===== src/LinkedList/Json.antt =====
-- `to_json_ll` of linked_list.c against a plain join.
use native.Mathlib.Numerals.{add-one}
use file_share_server.Common.{
  drop_next, ℕ, zero, suc, ◌+◌, ◌≡◌, refl, ◌∙◌, ap, ◌==◌, List, [], ◌∷◌, ◌++◌, append_assoc,
  append-nil, done, arith, length, drop, get_elem?, if◌then◌else◌, some, pos,
}
use file_share_server.LinkedList.{LinkedList, json_loop, list_to_json, retrieve}
use file_share_server.LinkedList.Access.{IsValid, retrieve-get_elem?}

module _ {A : Type 0} where
  get_elem?-drop :
      (xs : List A) (i : ℕ) (x : A) (rest : List A) → drop i xs ≡ x ∷ rest → get_elem? xs i ≡ some x
  get_elem?-drop [] zero x rest d = cc
  get_elem?-drop [] (suc i) x rest d = cc
  get_elem?-drop (y ∷ xs) zero x rest d = cc
  get_elem?-drop (y ∷ xs) (suc i) x rest d = get_elem?-drop xs i x rest d

  pub read :
      (l : LinkedList A) (i : ℕ) (x : A) (rest : List A)
      → IsValid l
      → drop i l.items ≡ x ∷ rest
      → retrieve l (pos i) ≡ done (some x)
  read l i x rest v d = retrieve-get_elem? l i v ∙ ap done (get_elem?-drop l.items i x rest d)

module _ {A : Type 0} (to_json : A → List ℕ) where
  -- The texts of the data with a comma between any two.
  unfoldable pub join : List A → List ℕ
  join [] = []
  join (x ∷ []) = to_json x
  join (x ∷ y ∷ xs) = to_json x ++ (b',' ∷ join (y ∷ xs))

  comma : ℕ → ℕ → List ℕ
  comma i count = if i + 1 == count then [] else b',' ∷ []

  json_loop_step :
      (l : LinkedList A) (left i : ℕ) (json : List ℕ) (x : A) (rest : List A)
      → IsValid l
      → drop i l.items ≡ x ∷ rest
      → json_loop to_json l (suc left) i json
        ≡ json_loop to_json l left (i + 1) (json ++ (to_json x ++ comma i l.count))
  unfolding json_loop comma
  json_loop_step l left i json x rest v d = rw (read l i x rest v d)

  json_loop-join :
      (l : LinkedList A) (xs : List A) (i : ℕ) (json : List ℕ)
      → IsValid l
      → drop i l.items ≡ xs
      → i + length xs ≡ l.count
      → json_loop to_json l (length xs) i json ≡ done (json ++ join xs)
  unfolding join
  json_loop-join l [] i json v d e = unfold json_loop in simp append-nil
  json_loop-join l (x ∷ []) i json v d e =
      let last : comma i l.count ≡ [] = unfold comma in ground arith in
      json_loop_step l 0 i json x [] v d ∙ unfold json_loop in simp (last, append-nil)
  json_loop-join l (x ∷ y ∷ xs) i json v d e =
      let inner : comma i l.count ≡ b',' ∷ [] = unfold comma in ground arith in
      json_loop_step l (suc (length xs)) i json x (y ∷ xs) v d
      ∙ json_loop-join l (y ∷ xs) (i + 1) (json ++ (to_json x ++ comma i l.count)) v
          (rw add-one (drop_next l.items i x (y ∷ xs) d)) (omega arith)
      ∙ simp (inner, append_assoc)

  -- The JSON text of a valid list is its data, in order, between brackets and with commas.
  pub list_to_json-join :
      (l : LinkedList A)
      → IsValid l
      → list_to_json to_json l ≡ done ((b'[' ∷ []) ++ (join l.items ++ (b']' ∷ [])))
  unfolding list_to_json
  list_to_json-join l v =
      let loop : json_loop to_json l l.count 0 (b'[' ∷ []) ≡ done ((b'[' ∷ []) ++ join l.items) =
        ap (λ n. json_loop to_json l n 0 (b'[' ∷ [])) v.counted
        ∙ json_loop-join l l.items 0 (b'[' ∷ []) v refl (omega (arith, v.counted)) in
      rw loop
