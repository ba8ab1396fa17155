-- ===== src/Restore/Conf/Written.antt =====
-- Where `create_recovery_conf` of pghoard/restore.py leaves the settings.
use pghoard.Base.{
  Bool-cases, Files, Option, Text, ap, append_file, codes, eq_of_text_eq, if◌then◌else◌, inl, inr,
  none, ok, path_join, refl, rename, set_file, some, starts_with_slash, sym, text_eq,
  text_eq-path_join, text_eq_refl, true, write_file, ◌++◌, ◌∙◌, ◌≡◌, ◌⊎◌,
}
use pghoard.Restore.Conf.{
  create_signal_file, Settings, PgVersion, use_recovery_conf, conf_lines, conf_text, signal_standby,
  write_conf, with_version, create_recovery_conf,
}

-- The file that the server of a version reads.
abbrev pub conf_path : PgVersion → Text → Text
conf_path v dirpath =
    if use_recovery_conf v
    then path_join dirpath (codes "recovery.conf")
    else path_join dirpath (codes "postgresql.auto.conf")

-- A file has the content, and no other file than it changed.
abbrev pub Replaced : Text → Text → Files → Files → Type 0
Replaced path content files files' =
    (files' path ≡ some content) × ((p : Text) → (text_eq p path ≡ true) ⊎ (files' p ≡ files p))

module _ (path content : Text) (files : Files) (absent : files (path ++ codes ".tmp") ≡ none) where
  replaced :
      (files' : Files)
      → files' (path ++ codes ".tmp") ≡ some content
      → ((p : Text) → (text_eq p (path ++ codes ".tmp") ≡ true) ⊎ (files' p ≡ files p))
      → Replaced path content files (rename (path ++ codes ".tmp") path files')
  unfolding rename set_file
  replaced files' written rest = (
    rw (text_eq_refl path) written,
    λ p. elim (Bool-cases (text_eq p path)) [
      | inl e ↦ inl e
      | inr e ↦ elim (Bool-cases (text_eq p (path ++ codes ".tmp"))) [
        | inl e' ↦
            inr (rw e (rw e' (sym (ap files (eq_of_text_eq p (path ++ codes ".tmp") e') ∙ absent))))
        | inr e' ↦ elim (rest p) [ inl f ↦ cc | inr f ↦ inr (rw e (rw e' f)) ]
      ]
    ],
  )

  set_file-same :
      (o : Option Text) (p : Text) → (text_eq p path ≡ true) ⊎ (set_file path o files p ≡ files p)
  unfolding set_file
  set_file-same o p = elim (Bool-cases (text_eq p path)) [ inl e ↦ inl e | inr e ↦ inr (rw e refl) ]

  Replaced-append :
      Replaced path content files
        (rename (path ++ codes ".tmp") path (append_file (path ++ codes ".tmp") content files))
  unfolding append_file set_file
  Replaced-append =
      replaced (append_file (path ++ codes ".tmp") content files)
        (rw (text_eq_refl (path ++ codes ".tmp")) (rw absent refl))
        (λ p. elim (Bool-cases (text_eq p (path ++ codes ".tmp"))) [
          | inl e ↦ inl e
          | inr e ↦ inr (rw e refl)
        ])

  Replaced-write :
      Replaced path content files
        (rename (path ++ codes ".tmp") path (write_file (path ++ codes ".tmp") content files))
  unfolding write_file set_file
  Replaced-write =
      replaced (write_file (path ++ codes ".tmp") content files)
        (rw (text_eq_refl (path ++ codes ".tmp")) refl)
        (λ p. elim (Bool-cases (text_eq p (path ++ codes ".tmp"))) [
          | inl e ↦ inl e
          | inr e ↦ inr (rw e refl)
        ])

write_conf-Replaced :
    (v : PgVersion) (dirpath content : Text) (files : Files)
    → files (conf_path v dirpath ++ codes ".tmp") ≡ none
    → Replaced (conf_path v dirpath) content files (write_conf v dirpath content files)
unfolding write_conf
write_conf-Replaced v dirpath content files = elim (Bool-cases (use_recovery_conf v)) [
  | inl e ↦ rw e (λ h. Replaced-write (path_join dirpath (codes "recovery.conf")) content files h)
  | inr e ↦
      rw e (λ h. Replaced-append (path_join dirpath (codes "postgresql.auto.conf")) content files h)
]

signal_standby-tmp :
    (v : PgVersion) (dirpath : Text) (s : Settings) (files : Files)
    → signal_standby v dirpath s files (conf_path v dirpath ++ codes ".tmp")
      ≡ files (conf_path v dirpath ++ codes ".tmp")
unfolding signal_standby create_signal_file write_file set_file starts_with_slash
signal_standby-tmp v dirpath s files = elim (Bool-cases s.restore_to_primary) [
  | inl p ↦ rw p refl
  | inr p ↦ elim (Bool-cases (use_recovery_conf v)) [
    | inl e ↦ rw p (rw e refl)
    | inr e ↦ rw p (
        rw e (
          rw
            (text_eq-path_join dirpath (codes "postgresql.auto.conf") (codes ".tmp")
              (codes "standby.signal") refl refl)
            (unfold text_eq in refl)))
  ]
]

-- For the version that PG_VERSION gives, with no file left from an attempt before: the lines of the
-- settings become the whole content of the configuration file, whatever it held, also of
-- postgresql.auto.conf since PostgreSQL 12, and the signal file of a standby is the only other
-- change.
pub create_recovery_conf_replaces :
    (adapt : Text → Text) (parse_version : Text → Option PgVersion) (dirpath : Text) (s : Settings)
    (files : Files) (text : Text) (v : PgVersion)
    → files (path_join dirpath (codes "PG_VERSION")) ≡ some text
    → parse_version text ≡ some v
    → files (conf_path v dirpath ++ codes ".tmp") ≡ none
    → (files' : Files) × (create_recovery_conf adapt parse_version dirpath s files
        ≡ ok (conf_text (conf_lines adapt v s), files'))
      × Replaced
          (conf_path v dirpath)
          (conf_text (conf_lines adapt v s))
          (signal_standby v dirpath s files)
          files'
unfolding create_recovery_conf with_version
create_recovery_conf_replaces adapt parse_version dirpath s files text v h k absent = (
  write_conf v dirpath (conf_text (conf_lines adapt v s)) (signal_standby v dirpath s files),
  rw h (rw k refl),
  write_conf-Replaced v dirpath (conf_text (conf_lines adapt v s))
      (signal_standby v dirpath s files) (signal_standby-tmp v dirpath s files ∙ absent),
)
