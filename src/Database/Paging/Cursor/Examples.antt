-- ===== src/Database/Paging/Cursor/Examples.antt =====
-- A cursor's token, with strokes for numbers and four characters for each one in place of base64.
use fraud_detection.Prelude.{
  ℕ, zero, suc, ◌*◌, ◌≡◌, refl, sym, ap, ◌∙◌, String, Bool, true, false, Option, some, ◌==◌,
  if◌then◌else◌, str_eq, str_eq_iff, if-false, arith,
}
use Prim.Native.Char.{Char, code}
use Prim.Native.String.{count as text_length}
use text.Mathlib.TextLemmas.{cons-ne-nil, append-nil, length-nil, length-cons}
use fraud_detection.Prelude.Result.{ok}
use fraud_detection.Database.Paging.{PageCursor}
use fraud_detection.Database.Paging.Cursor.{CursorCodec, rstrip, encode, decode, decode-encode}

abbrev tally : ℕ → String → ℕ
tally mark String.[] = 0
tally mark (String.◌∷◌ c rest) = if code c == mark then suc (tally mark rest) else tally mark rest

abbrev marks : ℕ → String
marks zero = ""
marks (suc n) = String.◌∷◌ "t" (marks n)

abbrev text_of : ℕ → ℕ → String
text_of zero t = marks t
text_of (suc o) t = String.◌∷◌ "o" (text_of o t)

tally-marks : (t : ℕ) → (tally 111 (marks t) ≡ 0) × (tally 116 (marks t) ≡ t)
tally-marks zero = (refl, refl)
tally-marks (suc t) = ((tally-marks t).0, ap suc (tally-marks t).1)

tally-text_of : (o t : ℕ) → (tally 111 (text_of o t) ≡ o) × (tally 116 (text_of o t) ≡ t)
tally-text_of zero t = tally-marks t
tally-text_of (suc o) t = (ap suc (tally-text_of o t).0, (tally-text_of o t).1)

abbrev grouped : String → String
grouped String.[] = ""
grouped (String.◌∷◌ c rest) =
    String.◌∷◌ c (String.◌∷◌ "x" (String.◌∷◌ "x" (String.◌∷◌ "x" (grouped rest))))

abbrev ungrouped : String → String
ungrouped (String.◌∷◌ c (String.◌∷◌ x (String.◌∷◌ y (String.◌∷◌ z rest)))) =
    String.◌∷◌ c (ungrouped rest)
ungrouped _ = ""

ungrouped-grouped : (raw : String) → ungrouped (grouped raw) ≡ raw
ungrouped-grouped String.[] = refl
ungrouped-grouped (String.◌∷◌ c rest) = ap (String.◌∷◌ c) (ungrouped-grouped rest)

text_length-grouped : (raw : String) → text_length (grouped raw) ≡ 4 * text_length raw
text_length-grouped String.[] = omega (arith, length-nil)
text_length-grouped (String.◌∷◌ c rest) =
    let tail = grouped rest in
    omega (
      arith,
      text_length-grouped rest,
      length-cons c rest,
      length-cons "x" tail,
      length-cons "x" (String.◌∷◌ "x" tail),
      length-cons "x" (String.◌∷◌ "x" (String.◌∷◌ "x" tail)),
      length-cons c (String.◌∷◌ "x" (String.◌∷◌ "x" (String.◌∷◌ "x" tail))),
    )

rstrip-x : (text : String) → rstrip text ≡ text → rstrip (String.◌∷◌ "x" text) ≡ String.◌∷◌ "x" text
unfolding rstrip
rstrip-x text h = rw h (by_empty (str_eq text "") refl)
  where
    by_empty :
        (b : Bool)
        → str_eq text "" ≡ b
        → (if b then "x" else String.◌∷◌ "x" text) ≡ String.◌∷◌ "x" text
    by_empty true e = ap (String.◌∷◌ "x") (sym ((str_eq_iff text "").0 e))
    by_empty false e = refl

rstrip-cons :
    (c : Char) (text : String)
    → rstrip (String.◌∷◌ "x" text) ≡ String.◌∷◌ "x" text
    → rstrip (String.◌∷◌ c (String.◌∷◌ "x" text)) ≡ String.◌∷◌ c (String.◌∷◌ "x" text)
unfolding rstrip
rstrip-cons c text h =
    ap (λ s. if str_eq s "" then (if code c == 61 then "" else String.◌∷◌ c "") else String.◌∷◌ c s)
      h
    ∙ if-false (if code c == 61 then "" else String.◌∷◌ c "") (String.◌∷◌ c (String.◌∷◌ "x" text))
        (not_empty (str_eq (String.◌∷◌ "x" text) "") refl)
  where
    not_empty : (b : Bool) → str_eq (String.◌∷◌ "x" text) "" ≡ b → b ≡ false
    not_empty true e = absurd (cons-ne-nil "x" text ((str_eq_iff (String.◌∷◌ "x" text) "").0 e))
    not_empty false e = refl

rstrip-grouped : (raw : String) → rstrip (grouped raw) ≡ grouped raw
unfolding rstrip
rstrip-grouped String.[] = refl
rstrip-grouped (String.◌∷◌ c rest) =
    rstrip-cons c (String.◌∷◌ "x" (String.◌∷◌ "x" (grouped rest))) (
      rstrip-x (String.◌∷◌ "x" (String.◌∷◌ "x" (grouped rest)))
        (rstrip-x (String.◌∷◌ "x" (grouped rest)) (rstrip-x (grouped rest) (rstrip-grouped rest))))

same_cursor :
    {a b c d : ℕ}
    → a ≡ b
    → c ≡ d
    → ◌≡◌ {A = Option PageCursor}
        (some (record { occurred_at = a; transaction_id = c }))
        (some (record { occurred_at = b; transaction_id = d }))
same_cursor e f = rw (e, f) refl

abbrev plain_cursor_codec : CursorCodec
plain_cursor_codec = record {
  dumps = λ cursor. text_of cursor.occurred_at cursor.transaction_id;
  loads = λ text. some (record { occurred_at = tally 111 text; transaction_id = tally 116 text });
  b64encode = grouped;
  b64decode = λ text. some (ungrouped text);
  loads_dumps = λ cursor.
      same_cursor (tally-text_of cursor.occurred_at cursor.transaction_id).0
        (tally-text_of cursor.occurred_at cursor.transaction_id).1;
  decode_encode = λ raw. ap some (ungrouped-grouped raw);
  groups = λ raw. (
    grouped raw,
    0,
    sym (append-nil (grouped raw)),
    rstrip-grouped raw,
    omega arith,
    omega (arith, text_length-grouped raw),
  );
}

abbrev cursor : PageCursor
cursor = record { occurred_at = 3; transaction_id = 5 }

decode-encode_example :
    (decode plain_cursor_codec (encode plain_cursor_codec cursor) ≡ ok cursor)
    × (rstrip (encode plain_cursor_codec cursor) ≡ encode plain_cursor_codec cursor)
decode-encode_example = decode-encode plain_cursor_codec cursor
