-- ===== src/Web/Requests/Sites.antt =====
-- The paths of the requests of pghoard/webserver.py and the configured sites.
use pghoard.Base.{
  Bool-cases, List, Option, Text, [], codes, elem, false, inl, inr, none, refl, some, text_eq, true,
  ◌==◌, ◌∷◌, ◌≡◌,
}
use pghoard.Wal.Lsn.{is_wal_name, is_timeline_name}
use pghoard.Web.Requests.{
  ObjectType, basebackup, status, metrics, xlog, timeline, Parsed, asked, refused, alone,
  parse_archive, parse_single, parse_object, parse_site, parse_request,
}

-- A refusal is no success, and a request for a site is for a configured one, by its name.
unfoldable pub Allowed : List Text → Text → Parsed → Type 0
Allowed backup_sites first (refused code) = (code == 201) ≡ false
Allowed backup_sites first (asked none obtype name) = Unit
Allowed backup_sites first (asked (some site) obtype name) =
    (site ≡ first) × (elem first backup_sites ≡ true)

module _ (backup_sites : List Text) (first : Text) (known : elem first backup_sites ≡ true) where
  parse_archive-Allowed : (name : Text) → Allowed backup_sites first (parse_archive first name)
  unfolding parse_archive Allowed
  parse_archive-Allowed name = elim (Bool-cases (is_wal_name name)) [
    | inl a ↦ rw a (refl, known)
    | inr a ↦ elim (Bool-cases (is_timeline_name name)) [
      | inl b ↦ rw a (rw b (refl, known))
      | inr b ↦ elim (Bool-cases (text_eq name (codes "basebackup"))) [
        | inl c ↦ rw a (rw b (rw c (refl, known)))
        | inr c ↦ rw a (rw b (rw c refl))
      ]
    ]
  ]

  parse_single-Allowed :
      (make : Text → Parsed) (rest : List Text)
      → ((name : Text) → Allowed backup_sites first (make name))
      → Allowed backup_sites first (parse_single make rest)
  unfolding parse_single
  parse_single-Allowed make [] h = unfold Allowed in refl
  parse_single-Allowed make (name ∷ []) h = h name
  parse_single-Allowed make (name ∷ p ∷ ps) h = unfold Allowed in refl

  parse_object-Allowed :
      (obtype : Text) (rest : List Text)
      → Allowed backup_sites first (parse_object first obtype rest)
  unfolding parse_object
  parse_object-Allowed obtype rest =
      let asked_here : (t : ObjectType) (name : Option Text)
          → Allowed backup_sites first (asked (some first) t name) =
        λ t name. unfold Allowed in (refl, known) in
      elim (Bool-cases (text_eq obtype (codes "basebackup"))) [
        | inl a ↦ rw a (asked_here basebackup none)
        | inr a ↦ elim (Bool-cases (text_eq obtype (codes "status"))) [
          | inl b ↦ rw a (rw b (asked_here status none))
          | inr b ↦ elim (Bool-cases (text_eq obtype (codes "archive"))) [
            | inl c ↦ rw a (
                rw b (rw c (parse_single-Allowed (parse_archive first) rest parse_archive-Allowed)))
            | inr c ↦ elim (Bool-cases (text_eq obtype (codes "timeline"))) [
              | inl d ↦ rw a (
                  rw b (
                    rw c (
                      rw d
                        (parse_single-Allowed _ rest (λ name. asked_here timeline (some name))))))
              | inr d ↦ elim (Bool-cases (text_eq obtype (codes "xlog"))) [
                | inl e ↦ rw a (
                    rw b (
                      rw c (
                        rw d (
                          rw e
                            (parse_single-Allowed _ rest (λ name. asked_here xlog (some name)))))))
                | inr e ↦ rw a (rw b (rw c (rw d (rw e (unfold Allowed in refl)))))
              ]
            ]
          ]
        ]
      ]

alone-Allowed :
    (backup_sites : List Text) (first : Text) (obtype : ObjectType) (rest : List Text)
    → Allowed backup_sites first (alone obtype rest)
unfolding alone Allowed
alone-Allowed backup_sites first obtype [] = tt
alone-Allowed backup_sites first obtype (p ∷ ps) = refl

parse_site-Allowed :
    (backup_sites : List Text) (first : Text) (rest : List Text)
    → Allowed backup_sites first (parse_site backup_sites first rest)
unfolding parse_site
parse_site-Allowed backup_sites first [] = unfold Allowed in refl
parse_site-Allowed backup_sites first (obtype ∷ rest) =
    elim (Bool-cases (elem first backup_sites)) [
      | inl k ↦ rw k (parse_object-Allowed backup_sites first k obtype rest)
      | inr k ↦ rw k (unfold Allowed in refl)
    ]

pub parse_request-Allowed :
    (backup_sites : List Text) (first : Text) (rest : List Text)
    → Allowed backup_sites first (parse_request backup_sites first rest)
unfolding parse_request
parse_request-Allowed backup_sites first rest = elim (Bool-cases (text_eq first (codes "status"))) [
  | inl a ↦ rw a (alone-Allowed backup_sites first status rest)
  | inr a ↦ elim (Bool-cases (text_eq first (codes "metrics"))) [
    | inl b ↦ rw a (rw b (alone-Allowed backup_sites first metrics rest))
    | inr b ↦ rw a (rw b (parse_site-Allowed backup_sites first rest))
  ]
]
