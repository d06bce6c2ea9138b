-- ===== src/Tests/Buffer.antt =====
-- The byte buffer at concrete values.
use eos_reimagined.Base.{◌≡◌, some, [], ◌∷◌, ◌++◌, arith}
use eos_reimagined.ByteBuffer.{put_var, get_var}
use eos_reimagined.ByteBuffer.RoundTrip.{get_var-put_var}

get_var-put_var_example : get_var (put_var 300 [] ++ 9 ∷ []) ≡ (some 300, 9 ∷ [])
get_var-put_var_example = get_var-put_var 300 (9 ∷ []) (omega arith)
