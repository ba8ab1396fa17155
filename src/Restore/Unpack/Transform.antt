-- ===== src/Restore/Unpack/Transform.antt =====
-- The tablespace statements of pghoard/restore.py as pghoard/gnutaremu.py reads them.
use pghoard.Base.{
  Bool-cases, List, Text, [], ap, arith, codes, false, if◌then◌else◌, inl, inr, ok, refl, some, sym,
  ℕ, ◌++◌, ◌==◌, ◌||◌, ◌∙◌, ◌∷◌, ◌≡◌, ◌≢◌,
}
use mathlib.Core.List.{append_assoc, append-nil}
use native.Mathlib.Decide.{ℕ_discrete}
use pghoard.Tar.Sed.{
  backslash, tokenize_char, tokenize_chars, all_tokens, tokenize_string, is_special, emitted,
  escapes, reverse_from, reverse_escaping, without_end, prepend, two_tokens, parse_separated, parse,
}
use pghoard.Tar.Sed.Laws.{
  escape, NoBackslash, at_token, plain_char, tokenize_chars-escape, tokenize_chars-append,
}
use pghoard.Restore.Unpack.{replace_char, tablespace_statement}

-- A tablespace's name in a regular expression: the backslash and the characters that the emulator
-- takes for operators have a backslash before them.
unfoldable pub quoted_name : Text → Text
unfolding is_special
quoted_name [] = []
quoted_name (c ∷ s) =
    let rest = quoted_name s in
    if c == backslash || is_special c then backslash ∷ c ∷ rest else c ∷ rest

doubled : Text → Text
doubled t = replace_char 92 (codes "\\\\") t

replace_other :
    (c d : ℕ) (new s : Text) → d ≢ c → replace_char c new (d ∷ s) ≡ d ∷ replace_char c new s
unfolding replace_char
replace_other c d new s h = ground arith

replace_char-escape : (s : Text) → replace_char b',' (codes "\\,") s ≡ escape b',' s
unfolding replace_char escape
replace_char-escape [] = refl
replace_char-escape (c ∷ s) = ground (arith, replace_char-escape s)

name_tokens :
    (rs : List Text) (tok t : Text)
    → tokenize_chars b',' (at_token rs tok) (replace_char b',' (codes "\\,") (doubled t))
      ≡ at_token rs (tok ++ doubled t)
unfolding tokenize_chars replace_char doubled tokenize_char
name_tokens rs tok [] = rw (append-nil tok) refl
name_tokens rs tok (c ∷ t) = elim (ℕ_discrete c 92) [
  | yes e ↦ rw e (
      name_tokens rs (tok ++ 92 ∷ 92 ∷ []) t
      ∙ ap (at_token rs) (append_assoc tok (92 ∷ 92 ∷ []) (doubled t)))
  | no n ↦ elim (ℕ_discrete c b',') [
    | yes e ↦ rw e (
        name_tokens rs (tok ++ b',' ∷ []) t
        ∙ ap (at_token rs) (append_assoc tok (b',' ∷ []) (doubled t)))
    | no m ↦ rw (replace_other 92 c (codes "\\\\") t n) (
        rw (replace_other b',' c (codes "\\,") (doubled t) m) (
          ap (λ st. tokenize_chars b',' st (replace_char b',' (codes "\\,") (doubled t)))
            (plain_char b',' c rs tok n m)
          ∙ name_tokens rs (tok ++ c ∷ []) t
          ∙ ap (at_token rs) (append_assoc tok (c ∷ []) (doubled t))))
  ]
]

glue_search :
    (d : Text)
    → ((((((d ++ codes "/") ++ codes "\\(") ++ codes ".") ++ codes "*") ++ codes "\\)")
        ++ codes "$")
      ≡ d ++ codes "/\\(.*\\)$"
glue_search [] = refl
glue_search (c ∷ d) = ap (λ t. c ∷ t) (glue_search d)

statement_body : Text → Text → Text
statement_body tsname path =
    codes "^tablespaces/"
    ++ (replace_char b',' (codes "\\,") (doubled tsname)
        ++ (codes "/\\(.*\\)$," ++ (replace_char b',' (codes "\\,") path ++ codes "/\\1")))

start_tokens :
    (s : Text)
    → tokenize_chars b',' (at_token [] []) (codes "^tablespaces/" ++ s)
      ≡ tokenize_chars b',' (at_token [] (codes "^tablespaces/")) s
unfolding tokenize_chars tokenize_char
start_tokens s = refl

search_tokens :
    (d s : Text)
    → tokenize_chars b',' (at_token [] (codes "^tablespaces/" ++ d)) (codes "/\\(.*\\)$," ++ s)
      ≡ tokenize_chars b','
          (at_token ((codes "^tablespaces/" ++ (d ++ codes "/\\(.*\\)$")) ∷ []) [])
          s
unfolding tokenize_chars tokenize_char
search_tokens d s =
    ap (λ t. tokenize_chars b',' (at_token ((codes "^tablespaces/" ++ t) ∷ []) []) s)
      (glue_search d)

replace_tokens :
    (rs : List Text) (tok : Text)
    → tokenize_chars b',' (at_token rs tok) (codes "/\\1") ≡ at_token rs (tok ++ codes "/\\1")
unfolding tokenize_chars tokenize_char
replace_tokens rs tok = ap (at_token rs) (append_assoc tok (codes "/") (codes "\\1"))

statement_tokens :
    (tsname path : Text)
    → NoBackslash path
    → tokenize_string (statement_body tsname path) b','
      ≡ (codes "^tablespaces/" ++ (doubled tsname ++ codes "/\\(.*\\)$"))
        ∷ (path ++ codes "/\\1")
        ∷ []
unfolding tokenize_string statement_body
statement_tokens tsname path h =
    let name = replace_char b',' (codes "\\,") (doubled tsname) in
    let written = replace_char b',' (codes "\\,") path in
    let search = codes "^tablespaces/" ++ (doubled tsname ++ codes "/\\(.*\\)$") in
    ap all_tokens (
      start_tokens (name ++ (codes "/\\(.*\\)$," ++ (written ++ codes "/\\1")))
      ∙ tokenize_chars-append b',' (at_token [] (codes "^tablespaces/")) name
          (codes "/\\(.*\\)$," ++ (written ++ codes "/\\1"))
      ∙ ap (λ st. tokenize_chars b',' st (codes "/\\(.*\\)$," ++ (written ++ codes "/\\1")))
          (name_tokens [] (codes "^tablespaces/") tsname)
      ∙ search_tokens (doubled tsname) (written ++ codes "/\\1")
      ∙ tokenize_chars-append b',' (at_token (search ∷ []) []) written (codes "/\\1")
      ∙ ap (λ st. tokenize_chars b',' st (codes "/\\1"))
          (ap (tokenize_chars b',' (at_token (search ∷ []) [])) (replace_char-escape path)
            ∙ tokenize_chars-escape b',' (search ∷ []) [] path h)
      ∙ replace_tokens (search ∷ []) path)

without_end-append : (t : Text) → without_end b',' (t ++ b',' ∷ []) ≡ some t
unfolding without_end
without_end-append [] = refl
without_end-append (c ∷ []) = refl
without_end-append (c ∷ d ∷ t) =
    ap (prepend c) (without_end-append (d ∷ t)) ∙ unfold prepend in refl

reverse_from-doubled :
    (t u : Text) → reverse_from false (doubled t ++ u) ≡ quoted_name t ++ reverse_from false u
unfolding reverse_from quoted_name doubled replace_char emitted escapes
reverse_from-doubled [] u = refl
reverse_from-doubled (c ∷ t) u = elim (ℕ_discrete c 92) [
  | yes e ↦ rw e (ap (λ s. 92 ∷ 92 ∷ s) (reverse_from-doubled t u))
  | no n ↦
      let e : (c == 92) ≡ false = ground arith in
      rw (replace_other 92 c (codes "\\\\") t n) (elim (Bool-cases (is_special c)) [
        | inl p ↦ rw e (rw p (ap (λ s. 92 ∷ c ∷ s) (reverse_from-doubled t u)))
        | inr p ↦ rw e (rw p (ap (λ s. c ∷ s) (reverse_from-doubled t u)))
      ])
]

statement_end :
    (tsname path : Text)
    → tablespace_statement tsname path ≡ b's' ∷ b',' ∷ (statement_body tsname path ++ b',' ∷ [])
unfolding tablespace_statement statement_body doubled
statement_end tsname path =
    ap (λ s. codes "s,^tablespaces/" ++ s)
      (ap (λ s. replace_char b',' (codes "\\,") (replace_char 92 (codes "\\\\") tsname) ++ s)
          (ap (λ s. codes "/\\(.*\\)$," ++ s)
            (sym (append_assoc (replace_char b',' (codes "\\,") path) (codes "/\\1") (codes ","))))
        ∙ sym (
            append_assoc (replace_char b',' (codes "\\,") (replace_char 92 (codes "\\\\") tsname))
              (codes "/\\(.*\\)$," ++ replace_char b',' (codes "\\,") path ++ codes "/\\1")
              (codes ",")))

parse_statement :
    (c : ℕ) (t search replace : Text)
    → tokenize_string (c ∷ t) b',' ≡ search ∷ replace ∷ []
    → parse (b's' ∷ b',' ∷ (c ∷ t ++ b',' ∷ [])) ≡ ok (reverse_escaping search, replace)
unfolding parse parse_separated two_tokens
parse_statement c t search replace h = rw (without_end-append (c ∷ t)) (rw h refl)

reverse_search :
    (tsname : Text)
    → reverse_escaping (codes "^tablespaces/" ++ (doubled tsname ++ codes "/\\(.*\\)$"))
      ≡ codes "^tablespaces/" ++ (quoted_name tsname ++ codes "/(.*)$")
unfolding reverse_escaping reverse_from emitted escapes is_special
reverse_search tsname =
    ap (λ s. codes "^tablespaces/" ++ s) (reverse_from-doubled tsname (codes "/\\(.*\\)$"))

-- The statement that restores a tablespace, read by the tar emulator, searches for the directory of
-- the tablespace with the name quoted, and replaces it by the path, if that has no backslash.
pub parse-tablespace_statement :
    (tsname path : Text)
    → NoBackslash path
    → parse (tablespace_statement tsname path)
      ≡ ok (codes "^tablespaces/" ++ (quoted_name tsname ++ codes "/(.*)$"), path ++ codes "/\\1")
unfolding statement_body
parse-tablespace_statement tsname path h =
    ap parse (statement_end tsname path)
    ∙ parse_statement b'^'
        (codes "tablespaces/"
          ++ (replace_char b',' (codes "\\,") (doubled tsname)
              ++ (codes "/\\(.*\\)$," ++ (replace_char b',' (codes "\\,") path ++ codes "/\\1"))))
        (codes "^tablespaces/" ++ (doubled tsname ++ codes "/\\(.*\\)$")) (path ++ codes "/\\1")
        (statement_tokens tsname path h)
    ∙ ap (λ search. ok (search, path ++ codes "/\\1")) (reverse_search tsname)
