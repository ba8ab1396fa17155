-- ===== src/Tar/Sed/Laws.antt =====
-- `tokenize_string` and `reverse_escaping` of pghoard/gnutaremu.py, and what undoes them.
use pghoard.Base.{
  All, Bool, Bool-cases, List, Text, [], ap, arith, false, if◌then◌else◌, inl, inr, refl, sym, true,
  ℕ, ◌++◌, ◌==◌, ◌∙◌, ◌∷◌, ◌≡◌, ◌≢◌,
}
use mathlib.Core.List.{append_assoc, append-nil}
use mathlib.Core.Path.{subst}
use native.Mathlib.Decide.{ℕ_discrete}
use pghoard.Tar.Sed.{
  backslash, Tokens, tokenize_char, tokenize_chars, all_tokens, tokenize_string, is_special,
  emitted, escapes, reverse_from, reverse_escaping,
}

-- The way to write a token: a backslash before each separator.
unfoldable pub escape : ℕ → Text → Text
escape separator [] = []
escape separator (c ∷ s) =
    let rest = escape separator s in if c == separator then backslash ∷ c ∷ rest else c ∷ rest

unfoldable pub join : ℕ → Text → List Text → Text
unfolding escape
join separator t [] = escape separator t
join separator t (u ∷ us) = escape separator t ++ separator ∷ join separator u us

abbrev pub NoBackslash : Text → Type 0
NoBackslash t = All (λ c. c ≢ backslash) t

pub tokenize_chars-append :
    (sep : ℕ) (st : Tokens) (s t : Text)
    → tokenize_chars sep st (s ++ t) ≡ tokenize_chars sep (tokenize_chars sep st s) t
unfolding tokenize_chars
tokenize_chars-append sep st [] t = refl
tokenize_chars-append sep st (c ∷ s) t = tokenize_chars-append sep (tokenize_char sep st c) s t

abbrev pub at_token : List Text → Text → Tokens
at_token rs tok = record { results = rs; token = tok; found_escape = false }

pub plain_char :
    (sep c : ℕ) (rs : List Text) (tok : Text)
    → c ≢ backslash
    → c ≢ sep
    → tokenize_char sep (at_token rs tok) c ≡ at_token rs (tok ++ c ∷ [])
unfolding tokenize_char
plain_char sep c rs tok hb hs = ground arith

escaped_char :
    (sep : ℕ) (rs : List Text) (tok : Text)
    → tokenize_char sep (tokenize_char sep (at_token rs tok) backslash) sep
      ≡ at_token rs (tok ++ sep ∷ [])
unfolding tokenize_char
escaped_char sep rs tok = ground arith

end_char :
    (sep : ℕ) (rs : List Text) (tok : Text)
    → sep ≢ backslash
    → tokenize_char sep (at_token rs tok) sep ≡ at_token (rs ++ tok ∷ []) []
unfolding tokenize_char
end_char sep rs tok hs = ground arith

escape_same : (sep : ℕ) (t : Text) → escape sep (sep ∷ t) ≡ backslash ∷ sep ∷ escape sep t
unfolding escape
escape_same sep t = ground arith

escape_other : (sep c : ℕ) (t : Text) → c ≢ sep → escape sep (c ∷ t) ≡ c ∷ escape sep t
unfolding escape
escape_other sep c t h = ground arith

pub tokenize_chars-escape :
    (sep : ℕ) (rs : List Text) (tok t : Text)
    → NoBackslash t
    → tokenize_chars sep (at_token rs tok) (escape sep t) ≡ at_token rs (tok ++ t)
unfolding tokenize_chars escape
tokenize_chars-escape sep rs tok [] h = rw (append-nil tok) refl
tokenize_chars-escape sep rs tok (c ∷ t) h =
    let more =
      tokenize_chars-escape sep rs (tok ++ c ∷ []) t h.1
      ∙ ap (at_token rs) (append_assoc tok (c ∷ []) t) in
    elim (ℕ_discrete c sep) [
      | yes same ↦
          ap (tokenize_chars sep (at_token rs tok)) (
            subst (λ d. escape sep (d ∷ t) ≡ backslash ∷ d ∷ escape sep t) (sym same)
              (escape_same sep t))
          ∙ ap (λ st. tokenize_chars sep st (escape sep t))
              (subst
                (λ d.
                  tokenize_char sep (tokenize_char sep (at_token rs tok) backslash) d
                  ≡ at_token rs (tok ++ d ∷ []))
                (sym same) (escaped_char sep rs tok))
          ∙ more
      | no other ↦
          ap (tokenize_chars sep (at_token rs tok)) (escape_other sep c t other)
          ∙ ap (λ st. tokenize_chars sep st (escape sep t)) (plain_char sep c rs tok h.0 other)
          ∙ more
    ]

tokenize_chars-join :
    (sep : ℕ) (rs : List Text) (t : Text) (us : List Text)
    → sep ≢ backslash
    → NoBackslash t
    → All NoBackslash us
    → all_tokens (tokenize_chars sep (at_token rs []) (join sep t us)) ≡ rs ++ t ∷ us
unfolding join tokenize_chars
tokenize_chars-join sep rs t [] hs ht hu = ap all_tokens (tokenize_chars-escape sep rs [] t ht)
tokenize_chars-join sep rs t (u ∷ us) hs ht hu =
    ap all_tokens (
      tokenize_chars-append sep (at_token rs []) (escape sep t) (sep ∷ join sep u us)
      ∙ ap (λ st. tokenize_chars sep st (sep ∷ join sep u us))
          (tokenize_chars-escape sep rs [] t ht)
      ∙ (unfold tokenize_chars in
          ap (λ st. tokenize_chars sep st (join sep u us)) (end_char sep rs t hs)))
    ∙ tokenize_chars-join sep (rs ++ t ∷ []) u us hs hu.0 hu.1
    ∙ append_assoc rs (t ∷ []) (u ∷ us)

-- Tokens without backslashes that are written with a backslash before each separator in them, and
-- joined by the separator, are the tokens that `tokenize_string` finds, if the separator is not a
-- backslash.
pub tokenize_string-join :
    (sep : ℕ) (t : Text) (us : List Text)
    → sep ≢ backslash
    → NoBackslash t
    → All NoBackslash us
    → tokenize_string (join sep t us) sep ≡ t ∷ us
unfolding tokenize_string
tokenize_string-join sep t us hs ht hu = tokenize_chars-join sep [] t us hs ht hu

-- Whether a text that is read with `found_escape` ends within an escape.
unfoldable pub dangling : Bool → Text → Bool
unfolding escapes
dangling found_escape [] = found_escape
dangling found_escape (c ∷ s) = dangling (escapes found_escape c) s

-- A backslash, if one has been read and not been written yet.
abbrev pending : Bool → Text → Text
pending false s = s
pending true s = backslash ∷ s

twice_char :
    (found : Bool) (c : ℕ) (s t : Text)
    → reverse_from false s ≡ pending (escapes found c) t
    → reverse_from false (emitted found c ++ s) ≡ pending found (c ∷ t)
unfolding reverse_from emitted escapes
twice_char true c s t h = elim (ℕ_discrete c backslash) [
  | yes e ↦ rw e (ap (λ r. backslash ∷ backslash ∷ r) (h))
  | no n ↦ elim (Bool-cases (is_special c)) [
    | inl sp ↦ ground (arith, sp, h)
    | inr sp ↦ ground (arith, sp, h)
  ]
]
twice_char false c s t h = elim (ℕ_discrete c backslash) [
  | yes e ↦
      subst
        (λ d.
          reverse_from false s ≡ pending (escapes false d) t
          → reverse_from false (emitted false d ++ s) ≡ d ∷ t)
        (sym e) (λ k. k) h
  | no n ↦ elim (Bool-cases (is_special c)) [
    | inl sp ↦ ground (arith, sp, h)
    | inr sp ↦ ground (arith, sp, h)
  ]
]

reverse_from-twice :
    (found : Bool) (s : Text)
    → dangling found s ≡ false
    → reverse_from false (reverse_from found s) ≡ pending found s
unfolding reverse_from dangling
reverse_from-twice true [] h = cc
reverse_from-twice false [] h = refl
reverse_from-twice found (c ∷ s) h =
    twice_char found c (reverse_from (escapes found c) s) s
      (reverse_from-twice (escapes found c) s h)

-- Exchanging the escapes twice gives the text back, if it does not end in a backslash that escapes
-- nothing.
pub reverse_escaping-reverse_escaping :
    (s : Text) → dangling false s ≡ false → reverse_escaping (reverse_escaping s) ≡ s
unfolding reverse_escaping
reverse_escaping-reverse_escaping s h = reverse_from-twice false s h
