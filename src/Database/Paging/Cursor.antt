-- ===== src/Database/Paging/Cursor.antt =====
-- `PageCursor.encode` and `PageCursor.decode` of app/database.py: the token of a page, without the padding of
-- base64. The JSON of a cursor and base64 itself are libraries', so an interface with their laws.
pub mod Examples
use fraud_detection.Prelude.{
  ℕ, zero, suc, ◌+◌, ◌-◌, ◌%◌, ◌≤◌, ◌<◌, ◌≡◌, ◌≢◌, refl, sym, ap, ◌∙◌, String, Bool, true, false,
  Option, none, some, ◌==◌, if◌then◌else◌, arith, str_eq,
}
use Prim.Native.Char.{Char, code}
use Prim.Native.String.{◌++◌ as append, count as text_length}
use text.Mathlib.TextLemmas.{nil-append, cons-append, length-cons, length-append}
use fraud_detection.Prelude.Result.{Result, ok, err}
use fraud_detection.Database.Paging.{PageCursor}

-- `"=" * n`
abbrev pub padding : ℕ → String
padding zero = ""
padding (suc n) = String.◌∷◌ "=" (padding n)

-- `text.rstrip("=")`
unfoldable pub rstrip : String → String
rstrip String.[] = ""
rstrip (String.◌∷◌ c rest) =
    let stripped = rstrip rest in
    if str_eq stripped ""
    then (if code c == 61 then "" else String.◌∷◌ c "")
    else String.◌∷◌ c stripped

-- `json.dumps` of the two fields as bytes, and its inverse with the constructors of `datetime` and `UUID`,
-- or an error; `urlsafe_b64encode` and `urlsafe_b64decode`. Base64 gives groups of four characters, of which
-- at most the last two of all are padding.
pub record CursorCodec : Type 0 where
  pub dumps : PageCursor → String
  pub loads : String → Option PageCursor
  pub b64encode : String → String
  pub b64decode : String → Option String
  pub loads_dumps : (cursor : PageCursor) → loads (dumps cursor) ≡ some cursor
  pub decode_encode : (raw : String) → b64decode (b64encode raw) ≡ some raw
  pub groups :
      (raw : String)
      → (body : String) × (n : ℕ) × (b64encode raw ≡ append body (padding n))
        × (rstrip body ≡ body)
        × (n < 4)
        × (text_length (b64encode raw) % 4 ≡ 0)

-- `ValueError("cursor is malformed")`
pub data CursorError : Type 0 where
  malformed : CursorError

module _ (codec : CursorCodec) where
  -- `encode`
  unfoldable pub encode : PageCursor → String
  unfolding rstrip
  encode cursor = rstrip (codec.b64encode (codec.dumps cursor))

  abbrev pub read_payload : Option String → Result CursorError PageCursor
  read_payload none = err malformed
  read_payload (some raw) = elim (codec.loads raw) [
    | none ↦ err malformed
    | some cursor ↦ ok cursor
  ]

  -- `decode`; `-len(token) % 4` of Python is not negative
  unfoldable pub decode : String → Result CursorError PageCursor
  decode token =
      read_payload (codec.b64decode (append token (padding ((4 - text_length token % 4) % 4))))

  -- the characters that `rstrip` takes away
  rstrip-padding : (n : ℕ) → rstrip (padding n) ≡ ""
  unfolding rstrip
  rstrip-padding zero = refl
  rstrip-padding (suc n) = rw (rstrip-padding n) refl

  rstrip-append : (body : String) (n : ℕ) → rstrip (append body (padding n)) ≡ rstrip body
  unfolding rstrip
  rstrip-append String.[] n = ap rstrip (nil-append (padding n)) ∙ rstrip-padding n
  rstrip-append (String.◌∷◌ c rest) n =
      ap rstrip (cons-append c rest (padding n)) ∙ rw (rstrip-append rest n) refl

  text_length-padding : (n : ℕ) → text_length (padding n) ≡ n
  text_length-padding zero = refl
  text_length-padding (suc n) = length-cons "=" (padding n) ∙ ap suc (text_length-padding n)

  missing-eq : (c n : ℕ) → n < 4 → (c + n) % 4 ≡ 0 → (4 - c % 4) % 4 ≡ n
  missing-eq c n h k = omega arith

  -- A cursor survives its way through a client: `decode` gives back what `encode` was given, and the token
  -- carries no padding.
  pub decode-encode :
      (cursor : PageCursor)
      → (decode (encode cursor) ≡ ok cursor) × (rstrip (encode cursor) ≡ encode cursor)
  unfolding decode encode
  decode-encode cursor =
      let (body, n, eq, bare, small, whole) = codec.groups (codec.dumps cursor) in
      let stripped : rstrip (codec.b64encode (codec.dumps cursor)) ≡ body =
        ap rstrip eq ∙ rstrip-append body n ∙ bare in
      let missing : (4 - text_length body % 4) % 4 ≡ n = missing-eq (text_length body) n small (
        ap (λ k. k % 4)
          (sym (
            ap text_length eq
            ∙ length-append body (padding n)
            ∙ ap (λ k. text_length body + k) (text_length-padding n)))
        ∙ whole) in
      (
        rw stripped (
            ap (λ k. read_payload (codec.b64decode (append body (padding k)))) missing
            ∙ ap (λ t. read_payload (codec.b64decode t)) (sym eq)
            ∙ ap read_payload (codec.decode_encode (codec.dumps cursor))
            ∙ ap from_json (codec.loads_dumps cursor)),
        rw stripped bare,
      )
    where
      from_json : Option PageCursor → Result CursorError PageCursor
      from_json o = elim o [ none ↦ err malformed | some c ↦ ok c ]
