-- ===== src/Tar/Sed.antt =====
-- `SedStatementParser` of pghoard/gnutaremu.py: the statements of `--transform`.
pub mod Laws
use pghoard.Base.{
  Bool, List, Option, Result, Text, [], false, if◌then◌else◌, index_error, none, not, ok, or_raise,
  other_error, raise, some, true, ℕ, ◌&&◌, ◌++◌, ◌==◌, ◌>>=◌, ◌>>◌, ◌||◌, ◌∷◌,
}

abbrev pub backslash : ℕ
backslash = 92

-- The variables of the loop in `tokenize_string`.
pub record Tokens : Type 0 where
  pub results : List Text
  pub token : Text
  pub found_escape : Bool

unfoldable pub tokenize_char : ℕ → Tokens → ℕ → Tokens
tokenize_char separator st c =
    if st.found_escape
    then record st {
      token = st.token ++ (if c == separator then separator ∷ [] else backslash ∷ c ∷ []);
      found_escape = false;
    }
    else if c == backslash
    then record st { found_escape = true }
    else if c == separator
    then record st { results = st.results ++ st.token ∷ []; token = [] }
    else record st { token = st.token ++ c ∷ [] }

unfoldable pub tokenize_chars : ℕ → Tokens → Text → Tokens
unfolding tokenize_char
tokenize_chars separator st [] = st
tokenize_chars separator st (c ∷ s) = tokenize_chars separator (tokenize_char separator st c) s

abbrev pub all_tokens : Tokens → List Text
all_tokens st = st.results ++ st.token ∷ []

-- A backslash at the end of the text is dropped.
unfoldable pub tokenize_string : Text → ℕ → List Text
unfolding tokenize_chars
tokenize_string s separator =
    all_tokens
      (tokenize_chars separator (record { results = []; token = []; found_escape = false }) s)

-- `c in "{}()+?|"`
unfoldable pub is_special : ℕ → Bool
is_special c =
    c == b'{'
    || (c == b'}' || (c == b'(' || (c == b')' || (c == b'+' || (c == b'?' || c == b'|')))))

-- What the loop of `reverse_escaping` adds to its output for a character, by `found_escape`.
unfoldable pub emitted : Bool → ℕ → Text
unfolding is_special
emitted true c =
    if c == backslash
    then backslash ∷ backslash ∷ []
    else if is_special c
    then c ∷ []
    else backslash ∷ c ∷ []
emitted false c = if c == backslash then [] else if is_special c then backslash ∷ c ∷ [] else c ∷ []

-- `found_escape` after a character.
unfoldable pub escapes : Bool → ℕ → Bool
escapes found_escape c = not found_escape && c == backslash

unfoldable pub reverse_from : Bool → Text → Text
unfolding emitted escapes
reverse_from found_escape [] = []
reverse_from found_escape (c ∷ s) =
    emitted found_escape c ++ reverse_from (escapes found_escape c) s

unfoldable pub reverse_escaping : Text → Text
unfolding reverse_from
reverse_escaping s = reverse_from false s

unfoldable pub prepend : ℕ → Option Text → Option Text
prepend c none = none
prepend c (some s) = some (c ∷ s)

-- The text without its last character, where that is the separator.
unfoldable pub without_end : ℕ → Text → Option Text
unfolding prepend
without_end separator [] = none
without_end separator (c ∷ []) = if c == separator then some [] else none
without_end separator (c ∷ d ∷ s) = prepend c (without_end separator (d ∷ s))

-- `tokens[0]`, `tokens[1]` of exactly two.
unfoldable pub two_tokens : List Text → Result (Text × Text)
two_tokens (search ∷ replace ∷ []) = ok (reverse_escaping search, replace)
two_tokens _ = raise other_error

-- The statement without its "s": the separator must be there, and stand at the end. In "s/" it is
-- both, and `statement[1:-1]` is empty.
unfoldable pub parse_separated : Text → Result (Text × Text)
unfolding two_tokens
parse_separated [] = raise index_error
parse_separated (separator ∷ []) = two_tokens (tokenize_string [] separator)
parse_separated (separator ∷ c ∷ s) = do
  body ← or_raise (without_end separator (c ∷ s)) other_error
  two_tokens (tokenize_string body separator)

-- `parse`: the expression that is compiled, and the replacement.
unfoldable pub parse : Text → Result (Text × Text)
unfolding parse_separated
parse [] = raise other_error
parse (c ∷ s) = if c == b's' then parse_separated s else raise other_error
