-- ===== src/Wire/Lists.antt =====
-- Lists on the wire: a count, then the elements; the count of an inbound list is capped.
use eos_reimagined.Base.{
  ℕ, zero, suc, ◌^◌, ◌≤◌, ◌<◌, ◌≡◌, refl, ◌&&◌, none, some, List, [], ◌∷◌, ◌++◌, append_assoc,
  append-nil, arith, length, length-append, leb, le→leb, All, if◌then◌else◌,
}
use eos_reimagined.ByteBuffer.{
  Text, Writer, Reader, ◌>>=◌, pure, put_var, get_var, put_string, get_string,
}
use eos_reimagined.ByteBuffer.Codec.{Codec, bind_parts, IsStable, IsStable-bind, IsStable-pure}
use eos_reimagined.ByteBuffer.Varint.{var-Codec, get_var-IsStable}
use eos_reimagined.ByteBuffer.Fields.{string-Codec}

-- The caps on inbound lists.
abbrev pub max_players_in_list : ℕ
max_players_in_list = 1000

abbrev pub max_attributes_in_list : ℕ
max_attributes_in_list = 64

abbrev pub max_search_parameters : ℕ
max_search_parameters = 64

abbrev pub max_search_results : ℕ
max_search_results = 200

abbrev pub max_data_records : ℕ
max_data_records = 32

abbrev pub max_lobby_members : ℕ
max_lobby_members = 64

-- `count <= cap && count <= reader.remaining()`
unfoldable pub check_count : ℕ → ℕ → Reader ℕ
check_count cap count s =
    if leb count cap && leb count (length s) then (some count, s) else (none, s)

unfoldable pub read_list_count : ℕ → Reader ℕ
read_list_count cap = do count ← get_var; check_count cap count

module _ {A : Type 0} where
  -- The writing loop over the elements.
  unfoldable pub put_each : (A → Writer) → List A → Writer
  put_each put [] buf = buf
  put_each put (x ∷ xs) buf = put_each put xs (put x buf)

  unfoldable pub put_list : (A → Writer) → List A → Writer
  put_list put xs buf = put_each put xs (put_var (length xs) buf)

  -- The reading loop, with `count` rounds left.
  unfoldable pub read_each : Reader A → ℕ → Reader (List A)
  read_each read zero = pure []
  read_each read (suc count) = do x ← read; xs ← read_each read count; pure (x ∷ xs)

  unfoldable pub read_list : ℕ → Reader A → Reader (List A)
  read_list cap read = do count ← read_list_count cap; read_each read count

  -- `xs`, written by `put`, are read by `read` as `ys`.
  abbrev pub Sent : (A → Writer) → Reader A → List A → List A → Type 0
  Sent put read [] [] = Unit {0}
  Sent put read [] (y ∷ ys) = ⊥
  Sent put read (x ∷ xs) [] = ⊥
  Sent put read (x ∷ xs) (y ∷ ys) = Codec (put x) read y × Sent put read xs ys

module _ {A : Type 0} (put : A → Writer) (read : Reader A) where
  -- The bytes of the elements, one at least for each.
  each_bytes :
      (xs ys : List A)
      → Sent put read xs ys
      → (bytes : List ℕ) × ((buf : List ℕ) → put_each put xs buf ≡ buf ++ bytes)
        × ((rest : List ℕ) → read_each read (length xs) (bytes ++ rest) ≡ (some ys, rest))
        × (length xs ≤ length bytes)
  unfolding put_each read_each ◌>>=◌ pure
  each_bytes [] [] h = ([], λ buf. rw append-nil, λ rest. refl, omega arith)
  each_bytes [] (y ∷ ys) h = absurd h
  each_bytes (x ∷ xs) [] h = absurd h
  each_bytes (x ∷ xs) (y ∷ ys) (c, h) =
      let (bytes, writes, reads, enough) = each_bytes xs ys h in
      (
        c.bytes ++ bytes,
        λ buf. rw (c.writes buf, writes (buf ++ c.bytes)) (append_assoc buf c.bytes bytes),
        λ rest. rw (append_assoc c.bytes bytes rest, c.reads (bytes ++ rest), reads rest),
        omega (arith, c.nonempty, length-append c.bytes bytes),
      )

  pub list-Codec :
      (cap : ℕ) (xs ys : List A)
      → Sent put read xs ys
      → length xs ≤ cap
      → cap < 2 ^ 64
      → Codec (put_list put xs) (read_list cap read) ys
  unfolding put_list read_list read_list_count check_count ◌>>=◌
  list-Codec cap xs ys h fits small =
      let (bytes, writes, reads, enough) = each_bytes xs ys h in
      let c = var-Codec (length xs) (omega arith) in
      record {
        bytes = c.bytes ++ bytes;
        writes = λ buf. rw (c.writes buf, writes (buf ++ c.bytes)) (append_assoc buf c.bytes bytes);
        reads = λ rest. rw (
          append_assoc c.bytes bytes rest,
          c.reads (bytes ++ rest),
          le→leb (length xs) cap fits,
          le→leb (length xs) (length (bytes ++ rest)) (omega (arith, length-append bytes rest)),
          reads rest,
        );
        nonempty = omega (arith, c.nonempty, length-append c.bytes bytes);
      }

-- A list of strings is sent as it is.
abbrev pub IsShort : Text → Type 0
IsShort s = length s < 2 ^ 64

pub strings-Sent : (xs : List Text) → All IsShort xs → Sent put_string get_string xs xs
strings-Sent [] h = tt
strings-Sent (x ∷ xs) h = (string-Codec x h.0, strings-Sent xs h.1)

pub players-Codec :
    (xs : List Text)
    → All IsShort xs
    → length xs ≤ 1000
    → Codec (put_list put_string xs) (read_list max_players_in_list get_string) xs
players-Codec xs h fits = list-Codec _ _ 1000 xs xs (strings-Sent xs h) fits (omega arith)

check_count-IsStable : (cap n : ℕ) → IsStable (check_count cap n)
unfolding check_count
check_count-IsStable cap n s more a rest e = ground (arith, length-append s more)

read_each-IsStable :
    {A : Type 0} (read : Reader A) → IsStable read → (n : ℕ) → IsStable (read_each read n)
unfolding read_each
read_each-IsStable read h zero = IsStable-pure []
read_each-IsStable read h (suc n) = IsStable-bind read _ h λ x.
    IsStable-bind (read_each read n) _ (read_each-IsStable read h n) λ xs. IsStable-pure (x ∷ xs)

pub read_list-IsStable :
    {A : Type 0} (cap : ℕ) (read : Reader A) → IsStable read → IsStable (read_list cap read)
unfolding read_list read_list_count
read_list-IsStable cap read h =
    IsStable-bind (read_list_count cap) _
      (IsStable-bind get_var _ get_var-IsStable (check_count-IsStable cap))
      (read_each-IsStable read h)

read_each-length :
    {A : Type 0} (read : Reader A) (n : ℕ) (s : List ℕ) (xs : List A) (rest : List ℕ)
    → read_each read n s ≡ (some xs, rest)
    → length xs ≡ n
unfolding read_each pure
read_each-length read zero s xs rest e = ground arith
read_each-length read (suc n) s xs rest e =
    let (x, t, _, more) = bind_parts read _ s rest xs e in
    let (ys, u, h, last) = bind_parts (read_each read n) _ t rest xs more in
    ground (arith, read_each-length read n t ys u h)

-- A list that an inbound message holds, whatever the bytes are, is no longer than its cap.
pub read_list_capped :
    {A : Type 0} (cap : ℕ) (read : Reader A) (s : List ℕ) (xs : List A) (rest : List ℕ)
    → read_list cap read s ≡ (some xs, rest)
    → length xs ≤ cap
unfolding read_list read_list_count check_count
read_list_capped cap read s xs rest e =
    let (n, t, counted, elements) = bind_parts (read_list_count cap) _ s rest xs e in
    let (k, u, _, checked) = bind_parts get_var _ s t n counted in
    ground (arith, read_each-length read n t xs rest elements)
