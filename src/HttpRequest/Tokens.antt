-- ===== src/HttpRequest/Tokens.antt =====
-- `strtok` of src/networking/http/http_request.c on texts that were joined.
use file_share_server.Common.{
  ℕ, zero, suc, ◌≤◌, ◌<◌, ◌==◌, ◌≡◌, refl, ap, ◌∙◌, Bool, true, false, ◌&&◌, not, some, List, [],
  ◌∷◌, ◌++◌, length, length-append, All, arith,
}
use file_share_server.Database.{Text}
use file_share_server.HttpRequest.{split_token, strtok, tokens_loop, tokens}

-- The character does not stand in the text.
abbrev pub is_free : ℕ → Text → Bool
is_free d [] = true
is_free d (c ∷ text) = not (c == d) && is_free d text

abbrev pub has_start : Text → Bool
has_start [] = false
has_start (c ∷ text) = true

split_token-append :
    (d : ℕ) (text rest : Text)
    → is_free d text ≡ true
    → split_token (d ∷ []) (text ++ d ∷ rest) ≡ (text, rest)
split_token-append d [] rest h = ground arith
split_token-append d (c ∷ text) rest h =
    let e = split_token-append d text rest (ground arith) in ground (arith, e)

split_token-whole :
    (d : ℕ) (text : Text) → is_free d text ≡ true → split_token (d ∷ []) text ≡ (text, [])
split_token-whole d [] h = refl
split_token-whole d (c ∷ text) h =
    let e = split_token-whole d text (ground arith) in ground (arith, e)

split_token-none : (text : Text) → split_token [] text ≡ (text, [])
split_token-none [] = refl
split_token-none (c ∷ text) = ground (arith, split_token-none text)

-- A text without the delimiter is the first token, whether the delimiter follows it or nothing does.
pub strtok-append :
    (d : ℕ) (text rest : Text)
    → has_start text ≡ true
    → is_free d text ≡ true
    → strtok (d ∷ []) (text ++ d ∷ rest) ≡ some (text, rest)
strtok-append d [] rest h k = cc
strtok-append d (c ∷ text) rest h k =
    unfold strtok in ground (arith, split_token-append d (c ∷ text) rest k)

pub strtok-whole :
    (d : ℕ) (text : Text)
    → has_start text ≡ true
    → is_free d text ≡ true
    → strtok (d ∷ []) text ≡ some (text, [])
strtok-whole d [] h k = cc
strtok-whole d (c ∷ text) h k = unfold strtok in ground (arith, split_token-whole d (c ∷ text) k)

pub strtok-none : (text : Text) → has_start text ≡ true → strtok [] text ≡ some (text, [])
strtok-none [] h = cc
strtok-none (c ∷ text) h = unfold strtok in ap some (split_token-none (c ∷ text))

-- The texts with the delimiter between them.
unfoldable pub joined : ℕ → List Text → Text
joined d [] = []
joined d (text ∷ []) = text
joined d (text ∷ next ∷ texts) = text ++ d ∷ joined d (next ∷ texts)

abbrev pub is_token : ℕ → Text → Bool
is_token d text = has_start text && is_free d text

tokens_loop-next :
    (fuel : ℕ) (delimiters text first rest : Text)
    → strtok delimiters text ≡ some (first, rest)
    → tokens_loop (suc fuel) delimiters text ≡ first ∷ tokens_loop fuel delimiters rest
unfolding tokens_loop
tokens_loop-next fuel delimiters text first rest e = rw (tokens_loop, e)

tokens_loop-nil : (fuel : ℕ) (delimiters : Text) → tokens_loop fuel delimiters [] ≡ []
unfolding tokens_loop strtok
tokens_loop-nil zero delimiters = refl
tokens_loop-nil (suc fuel) delimiters = refl

has_length : (text : Text) → has_start text ≡ true → 0 < length text
has_length [] h = cc
has_length (c ∷ text) h = omega arith

start_of : (d : ℕ) (text : Text) → is_token d text ≡ true → has_start text ≡ true
start_of d text h = ground arith

free_of : (d : ℕ) (text : Text) → is_token d text ≡ true → is_free d text ≡ true
free_of d text h = ground arith

tokens_loop-joined :
    (d fuel : ℕ) (texts : List Text)
    → All (λ text. is_token d text ≡ true) texts
    → length (joined d texts) ≤ fuel
    → tokens_loop fuel (d ∷ []) (joined d texts) ≡ texts
unfolding joined
tokens_loop-joined d fuel [] h k = tokens_loop-nil fuel (d ∷ [])
tokens_loop-joined d zero (text ∷ []) h k =
    absurd (omega (arith, has_length text (start_of d text h.0)))
tokens_loop-joined d (suc fuel) (text ∷ []) h k =
    tokens_loop-next fuel (d ∷ []) text text []
      (strtok-whole d text (start_of d text h.0) (free_of d text h.0))
    ∙ ap (λ rest. text ∷ rest) (tokens_loop-nil fuel (d ∷ []))
tokens_loop-joined d zero (text ∷ next ∷ texts) h k = absurd (
    omega (
      arith,
      has_length text (start_of d text h.0),
      length-append text (d ∷ joined d (next ∷ texts)),
    ))
tokens_loop-joined d (suc fuel) (text ∷ next ∷ texts) h k =
    let rest = joined d (next ∷ texts) in
    tokens_loop-next fuel (d ∷ []) (text ++ d ∷ rest) text rest
      (strtok-append d text rest (start_of d text h.0) (free_of d text h.0))
    ∙ ap (λ rest. text ∷ rest)
        (tokens_loop-joined d fuel (next ∷ texts) h.1
          (omega (arith, length-append text (d ∷ rest), has_length text (start_of d text h.0))))

pub tokens-joined :
    (d : ℕ) (texts : List Text)
    → All (λ text. is_token d text ≡ true) texts
    → tokens (d ∷ []) (joined d texts) ≡ texts
unfolding tokens
tokens-joined d texts h = tokens_loop-joined d (length (joined d texts)) texts h (omega arith)
