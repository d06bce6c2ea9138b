-- ===== src/JsonWriter/Document/Strings.antt =====
-- The loop of `write_string`: it comes to the end of every string.
use eos_reimagined.Base.{ℕ, zero, suc, ◌≤◌, ◌≡◌, ap, sym, ◌∙◌, [], ◌∷◌, ◌++◌, length, arith, true}
use eos_reimagined.ByteBuffer.{Text}
use eos_reimagined.JsonWriter.Utf8.{next_piece}
use eos_reimagined.JsonWriter.Utf8.Length.{next_piece_shorter}
use eos_reimagined.JsonWriter.{JsonWriter, write_string}
use eos_reimagined.JsonWriter.Document.{escaped, quoted, write_string-at}

-- `t` is made of the pieces of the rounds of the loop over `s`, to its end.
pub data Escapes : Text → Text → Type 0 where
  finished : Escapes [] []
  round :
      {t : Text} (c : ℕ) (s : Text)
      → Escapes (next_piece c s).1 t
      → Escapes (c ∷ s) ((next_piece c s).0 ++ t)

escaped-Escapes : (fuel : ℕ) (s : Text) → length s ≤ fuel → Escapes s (escaped fuel s)
unfolding escaped
escaped-Escapes zero [] h = finished
escaped-Escapes zero (c ∷ s) h = absurd (omega (arith, h))
escaped-Escapes (suc fuel) [] h = finished
escaped-Escapes (suc fuel) (c ∷ s) h =
    round c s (escaped-Escapes fuel (next_piece c s).1 (omega (arith, next_piece_shorter c s)))

-- On a valid writer without a cap, `write_string` appends a quote, the pieces of the string to its very
-- end, and a quote, and changes nothing else.
pub write_string-Escapes :
    (s : Text) (w : JsonWriter)
    → w.valid ≡ true
    → w.max_bytes ≡ 0
    → (t : Text) × Escapes s t
      × (write_string s w ≡ record w { out = w.out ++ (b'"' ∷ t ++ b'"' ∷ []) })
unfolding quoted
write_string-Escapes s w v m =
    let ready : w ≡ record w { valid = true; max_bytes = 0 } =
      λ i. record w { valid = v i; max_bytes = m i } in
    let written : record w { out = w.out ++ quoted s }
        ≡ record w { out = w.out ++ quoted s; valid = true; max_bytes = 0 } =
      λ i. record w { out = w.out ++ quoted s; valid = v i; max_bytes = m i } in
    (
      escaped (length s) s,
      escaped-Escapes (length s) s (omega arith),
      ap (write_string s) ready
          ∙ (write_string-at s w.out w.levels w.after_key w.root_done ∙ sym written),
    )
