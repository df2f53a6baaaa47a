-- ===== src/Runtime/Codec.antt =====
-- Text in runtime/rust/lana-runtime/src/codec.rs, `append_string`, over UTF-8 bytes: what it escapes
-- is ASCII. Also the decimal numbers of `format!`.
use lana.Prelude.{
  ℕ, zero, suc, ◌+◌, ◌*◌, ◌/◌, ◌%◌, ◌^◌, Bool, true, false, not, ◌||◌, ltb, ◌==◌, if◌then◌else◌,
  List, [], ◌∷◌, ◌++◌, Result, ok, err, ◌>>=◌, ◌>>◌, require,
}
use lana.Bytecode.Error.{LanaError}
use lana.Bytecode.Objects.Text.{Str, lit}
use lana.Runtime.Payload.{has_nul}
pub mod Clean

-- The digits of a number before some text, on fuel; a `u64` has at most 20 digits.
unfoldable pub digits : ℕ → ℕ → Str → Str
digits zero n after = after
digits (suc fuel) n after =
    let more = digits fuel (n / 10) ((48 + n % 10) ∷ after) in
    if ltb n 10 then (48 + n) ∷ after else more

unfoldable pub decimal : ℕ → Str
unfolding digits
decimal n = digits 20 n []

unfoldable pub hex_digit : ℕ → ℕ
hex_digit n = if ltb n 10 then 48 + n else 87 + n

-- What is written for a character, of one byte where it is escaped.
unfoldable pub escape : ℕ → Str
unfolding hex_digit
escape b =
    if b == 34
    then 92 ∷ 34 ∷ []
    else (if b == 92
        then 92 ∷ 92 ∷ []
        else (if b == 8
            then 92 ∷ 98 ∷ []
            else (if b == 12
                then 92 ∷ 102 ∷ []
                else (if b == 10
                    then 92 ∷ 110 ∷ []
                    else (if b == 13
                        then 92 ∷ 114 ∷ []
                        else (if b == 9
                            then 92 ∷ 116 ∷ []
                            else (if ltb b 0x20
                                then 92
                                  ∷ 117
                                  ∷ 48
                                  ∷ 48
                                  ∷ hex_digit (b / 16)
                                  ∷ hex_digit (b % 16)
                                  ∷ []
                                else b ∷ [])))))))

unfoldable pub escape_all : Str → Str
unfolding escape
escape_all [] = []
escape_all (b ∷ bs) = escape b ++ escape_all bs

-- `append_string` to the empty output, which is `encode_value` of a string.
unfoldable pub encode_string : Str → Result LanaError Str
unfolding has_nul escape_all
encode_string text = do
  require (not (has_nul text)) LanaError.schema
  ok (34 ∷ (escape_all text ++ (34 ∷ [])))
