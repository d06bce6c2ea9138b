-- ===== src/JsonWriter/Document/Grammar.antt =====
-- The grammar of JSON, and that the calls which write a document write a text of it.
use eos_reimagined.Base.{
  ℕ, zero, suc, ◌≤◌, ◌≡◌, refl, Bool, true, false, [], ◌∷◌, ◌++◌, length, arith, All,
}
use eos_reimagined.Base.Int.{pos, negsuc}
use eos_reimagined.Base.Decimal.{
  decimal, decimal_value, decimal_value-decimal, IsDigit, digits-decimal, leads_with_zero,
  leads_with_zero-decimal,
}
use eos_reimagined.ByteBuffer.{Text}
use eos_reimagined.JsonWriter.Utf8.{next_piece}
use eos_reimagined.JsonWriter.Utf8.Length.{next_piece_shorter}
use eos_reimagined.JsonWriter.Utf8.Spelling.{Spells, ended, step_spells}
use eos_reimagined.JsonWriter.{signed_decimal}
use eos_reimagined.JsonWriter.Document.{
  Json, null, bool, int, uint, string, array, object, Items, no_item, item, Fields, no_field, field,
  escaped, quoted, comma, render, render_items, render_fields,
}

-- Decimal digits that stand for `n`, with no zero in front of others.
pub record IsNumeral (n : ℕ) (t : Text) : Type 0 where
  pub digits : All IsDigit t
  pub value : decimal_value t ≡ n
  pub lead : leads_with_zero t ≡ false

abbrev pub Quotes : Text → Text → Type 0
Quotes s t = (inner : Text) × (t ≡ b'"' ∷ inner ++ b'"' ∷ []) × Spells s inner

-- What stands in front of an item or a field.
abbrev pub separator : Bool → Text
separator true = []
separator false = b',' ∷ []

-- `t` is a text of the document.
abbrev mutual
  pub Prints : Json → Text → Type 0
  Prints null t = t ≡ b'n' ∷ b'u' ∷ b'l' ∷ b'l' ∷ []
  Prints (bool true) t = t ≡ b't' ∷ b'r' ∷ b'u' ∷ b'e' ∷ []
  Prints (bool false) t = t ≡ b'f' ∷ b'a' ∷ b'l' ∷ b's' ∷ b'e' ∷ []
  Prints (int (pos n)) t = IsNumeral n t
  Prints (int (negsuc n)) t = (ds : Text) × (t ≡ b'-' ∷ ds) × IsNumeral (suc n) ds
  Prints (uint n) t = IsNumeral n t
  Prints (string s) t = Quotes s t
  Prints (array items) t =
      (inner : Text) × (t ≡ b'[' ∷ inner ++ b']' ∷ []) × PrintsItems true items inner
  Prints (object fields) t =
      (inner : Text) × (t ≡ b'{' ∷ inner ++ b'}' ∷ []) × PrintsFields true fields inner

  pub PrintsItems : Bool → Items → Text → Type 0
  PrintsItems first no_item t = t ≡ []
  PrintsItems first (item j items) t =
      (one : Text) × (more : Text) × (t ≡ separator first ++ one ++ more)
      × Prints j one
      × PrintsItems false items more

  pub PrintsFields : Bool → Fields → Text → Type 0
  PrintsFields first no_field t = t ≡ []
  PrintsFields first (field name j fields) t =
      (key : Text) × (one : Text) × (more : Text) × (t
        ≡ separator first ++ key ++ b':' ∷ one ++ more)
      × Quotes name key
      × Prints j one
      × PrintsFields false fields more

decimal-IsNumeral : (n : ℕ) → IsNumeral n (decimal n)
decimal-IsNumeral n = record {
  digits = digits-decimal n;
  value = decimal_value-decimal n;
  lead = leads_with_zero-decimal n;
}

escaped-Spells : (fuel : ℕ) (s : Text) → length s ≤ fuel → Spells s (escaped fuel s)
unfolding escaped
escaped-Spells zero [] h = ended
escaped-Spells zero (c ∷ s) h = absurd (omega (arith, h))
escaped-Spells (suc fuel) [] h = ended
escaped-Spells (suc fuel) (c ∷ s) h =
    step_spells c s (escaped fuel (next_piece c s).1)
      (escaped-Spells fuel (next_piece c s).1 (omega (arith, h, next_piece_shorter c s)))

quoted-Quotes : (s : Text) → Quotes s (quoted s)
unfolding quoted
quoted-Quotes s = (escaped (length s) s, refl, escaped-Spells (length s) s (omega arith))

comma_lem : (first : Bool) → comma first ≡ separator first
unfolding comma
comma_lem true = refl
comma_lem false = refl

mutual
  unfolding render render_items render_fields signed_decimal

  render-Prints : (j : Json) → Prints j (render j)
  render-Prints null = refl
  render-Prints (bool true) = refl
  render-Prints (bool false) = refl
  render-Prints (int (pos n)) = decimal-IsNumeral n
  render-Prints (int (negsuc n)) = (decimal (suc n), refl, decimal-IsNumeral (suc n))
  render-Prints (uint n) = decimal-IsNumeral n
  render-Prints (string s) = quoted-Quotes s
  render-Prints (array items) = (render_items true items, refl, render_items-Prints true items)
  render-Prints (object fields) =
      (render_fields true fields, refl, render_fields-Prints true fields)

  render_items-Prints :
      (first : Bool) (items : Items) → PrintsItems first items (render_items first items)
  render_items-Prints first no_item = refl
  render_items-Prints first (item j items) = (
    render j,
    render_items false items,
    rw (comma_lem first) refl,
    render-Prints j,
    render_items-Prints false items,
  )

  render_fields-Prints :
      (first : Bool) (fields : Fields) → PrintsFields first fields (render_fields first fields)
  render_fields-Prints first no_field = refl
  render_fields-Prints first (field name j fields) = (
    quoted name,
    render j,
    render_fields false fields,
    rw (comma_lem first) refl,
    quoted-Quotes name,
    render-Prints j,
    render_fields-Prints false fields,
  )
