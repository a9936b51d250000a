-- ===== src/HttpRequest/Queries.antt =====
-- The fields of a query or a body of src/networking/http/http_request.c.
use file_share_server.Common.{
  ℕ, zero, suc, ◌+◌, ◌<◌, ◌==◌, ◌≡◌, refl, sym, Bool, true, false, ◌&&◌, not, List, [], ◌∷◌, ◌++◌,
  length, append-nil, append_assoc, All, Outcome, done, fault, exited, ◌>>=◌, ℤ, arith,
}
use file_share_server.LinkedList.{linked_list_constructor}
use file_share_server.Dictionary.{dictionary_constructor}
use file_share_server.Queue.{Queue, queue_constructor}
use file_share_server.Queue.Fifo.{Holds, push-Holds, peek-Holds, pop-Holds}
use file_share_server.Database.{Text}
use file_share_server.Controller.Response.{Fields}
use file_share_server.HttpRequest.{
  push_fields, trimmed, key_value, insert_field, drain_fields, extract_fields,
}
use file_share_server.HttpRequest.Tokens.{
  is_free, has_start, is_token, joined, strtok-append, strtok-none, tokens-joined,
}

bind_same :
    {A B : Type 0} (m : Outcome A) (f g : A → Outcome B)
    → ((a : A) → f a ≡ g a)
    → (m >>= f) ≡ (m >>= g)
bind_same (done a) f g h = h a
bind_same fault f g h = refl
bind_same exited f g h = refl

-- The text of a field.
abbrev pub field_text : Text × Text → Text
field_text pair = pair.0 ++ b'=' ∷ pair.1

abbrev starts_with_space : Text → Bool
starts_with_space [] = false
starts_with_space (c ∷ text) = c == b' '

-- A key and a value that are not empty, without the characters that separate; the value does not
-- begin with a space.
abbrev pub is_field : Text × Text → Bool
is_field pair =
    is_token b'=' pair.0
    && (is_free b'&' pair.0 && (is_token b'&' pair.1 && not (starts_with_space pair.1)))

abbrev pub field_texts : List (Text × Text) → List Text
field_texts [] = []
field_texts (pair ∷ pairs) = field_text pair ∷ field_texts pairs

is_free-append :
    (d : ℕ) (text rest : Text)
    → is_free d text ≡ true
    → is_free d rest ≡ true
    → is_free d (text ++ rest) ≡ true
is_free-append d [] rest h k = k
is_free-append d (c ∷ text) rest h k = ground (arith, is_free-append d text rest (ground arith) k)

has_start-append : (text rest : Text) → has_start text ≡ true → has_start (text ++ rest) ≡ true
has_start-append [] rest h = cc
has_start-append (c ∷ text) rest h = refl

value_free : (value : Text) → is_free b'&' value ≡ true → is_free b'&' (b'=' ∷ value) ≡ true
value_free value h = ground arith

field_text-is_token :
    (pair : Text × Text) → is_field pair ≡ true → is_token b'&' (field_text pair) ≡ true
field_text-is_token pair h =
    let start = has_start-append pair.0 (b'=' ∷ pair.1) (ground arith) in
    let free =
      is_free-append b'&' pair.0 (b'=' ∷ pair.1) (ground arith)
        (value_free pair.1 (ground arith)) in
    rw (start, free)

field_texts-is_token :
    (pairs : List (Text × Text))
    → All (λ pair. is_field pair ≡ true) pairs
    → All (λ text. is_token b'&' text ≡ true) (field_texts pairs)
field_texts-is_token [] h = tt
field_texts-is_token (pair ∷ pairs) h =
    (field_text-is_token pair h.0, field_texts-is_token pairs h.1)

trimmed-same : (value : Text) → starts_with_space value ≡ false → trimmed value ≡ value
trimmed-same [] h = refl
trimmed-same (c ∷ value) h = ground arith

key_value-field_text :
    (pair : Text × Text) → is_field pair ≡ true → key_value (field_text pair) ≡ done pair
unfolding key_value
key_value-field_text pair h = rw (
  key_value,
  strtok-append b'=' pair.0 pair.1 (ground arith) (ground arith),
  strtok-none pair.1 (ground arith),
  trimmed-same pair.1 (ground arith),
)

token_start : (text : Text) → is_token b'&' text ≡ true → has_start text ≡ true
token_start text h = ground arith

has_size : (room : ℕ) (text : Text) → has_start text ≡ true → 0 < length text + room
has_size room [] h = cc
has_size room (c ∷ text) h = omega arith

module _ (room : ℕ) where
  push_fields-Holds :
      (texts xs : List Text) (queue : Queue Text)
      → All (λ text. is_token b'&' text ≡ true) texts
      → Holds queue xs
      → (queue' : Queue Text) × (push_fields room queue texts ≡ done queue')
        × Holds queue' (xs ++ texts)
  unfolding push_fields
  push_fields-Holds [] xs queue h holds = (queue, refl, rw (append-nil xs) holds)
  push_fields-Holds (text ∷ texts) xs queue h holds =
      let (pushed, e, more) =
        push-Holds queue xs text (length text + room) holds
          (has_size room text (token_start text h.0)) in
      let (last, e', all) = push_fields-Holds texts (xs ++ text ∷ []) pushed h.1 more in
      (last, rw e e', rw (sym (append_assoc xs (text ∷ []) texts)) all)

module _ (strcmp : Text → Text → ℤ) where
  -- The pairs inserted one after the other.
  unfoldable pub insert_all : List (Text × Text) → Fields → Outcome Fields
  insert_all [] fields = done fields
  insert_all (pair ∷ pairs) fields =
      insert_field strcmp fields pair >>= λ inserted. insert_all pairs inserted

  drain_fields-insert_all :
      (pairs : List (Text × Text)) (fuel : ℕ) (queue : Queue Text) (fields : Fields)
      → length pairs < fuel
      → All (λ pair. is_field pair ≡ true) pairs
      → Holds queue (field_texts pairs)
      → drain_fields strcmp fuel queue fields ≡ insert_all pairs fields
  unfolding drain_fields insert_all
  drain_fields-insert_all pairs zero queue fields l h holds = absurd (omega arith)
  drain_fields-insert_all [] (suc fuel) queue fields l h holds =
      rw (drain_fields, insert_all, peek-Holds queue [] holds)
  drain_fields-insert_all (pair ∷ pairs) (suc fuel) queue fields l h holds =
      let (popped, e, rest) = pop-Holds queue (field_texts (pair ∷ pairs)) holds in
      rw
        (
          drain_fields,
          insert_all,
          peek-Holds queue (field_texts (pair ∷ pairs)) holds,
          key_value-field_text pair h.0,
        )
        (bind_same (insert_field strcmp fields pair) _ _ (λ inserted.
          rw e (drain_fields-insert_all pairs fuel popped inserted (omega arith) h.1 rest)))

  length-field_texts : (pairs : List (Text × Text)) → length (field_texts pairs) ≡ length pairs
  length-field_texts [] = refl
  length-field_texts (pair ∷ pairs) = omega (arith, length-field_texts pairs)

  empty-Holds : Holds {A = Text} queue_constructor []
  unfolding queue_constructor linked_list_constructor
  empty-Holds = record { items = refl; valid = record { counted = refl } }

  pub extract_fields-insert_all :
      (room : ℕ) (pairs : List (Text × Text))
      → All (λ pair. is_field pair ≡ true) pairs
      → extract_fields strcmp room (joined b'&' (field_texts pairs))
        ≡ insert_all pairs dictionary_constructor
  unfolding extract_fields
  extract_fields-insert_all room pairs h =
      let texts = field_texts pairs in
      let (queue, e, holds) =
        push_fields-Holds room texts [] queue_constructor (field_texts-is_token pairs h)
          empty-Holds in
      rw (extract_fields, tokens-joined b'&' texts (field_texts-is_token pairs h), e)
        (drain_fields-insert_all pairs (length texts + 1) queue dictionary_constructor
          (omega (arith, length-field_texts pairs)) h holds)
