-- ===== src/Compressor/Deleter/Latest.antt =====
-- Which files `deleted_unneeded_files` of pghoard/compressor.py tries to delete, and which it leaves.
use pghoard.Base.{
  All, Bool, Bool-cases, List, Option, Text, [], ap, arith, false, inl, inr, length, refl, some,
  sym, text_eq, true, ℕ, ◌∙◌, ◌∷◌, ◌≡◌, ◌≤◌, ◌⊎◌,
}
use pghoard.Compressor.Deleter.{
  Unlinked, unlinked, file_not_found, unlink_failed, insert, add_file, Deletions, after_unlink,
  delete_all_but_last, Sites, go_on_with, deleted_unneeded_files, handle_deletion,
}
use pghoard.Compressor.Deleter.Sets.{Ordered, latest, Before, Before-latest, insert-Ordered}

module _ {S : Type 0} (unlink : S → Text → Unlinked × S) where
  abbrev pub unlink_each : List Text → S → S
  unlink_each [] s = s
  unlink_each (path ∷ paths) s = unlink_each paths (unlink s path).1

  abbrev pub unlink_all : List (Text × List Text) → S → S
  unlink_all [] s = s
  unlink_all ((site, paths) ∷ sites) s = unlink_all sites (unlink_each paths s)

  -- What the loop over the files of a site has to do.
  abbrev pub IsKept : List Text → S → Deletions S → Type 0
  IsKept files s d =
      (d.files ≡ unlink_each d.tried s)
      × (latest d.left ≡ latest files)
      × All (Before (latest files)) d.tried
      × Ordered d.left
      × ((d.is_failed ≡ true) ⊎ (length d.left ≤ 1))

  after_unlink-IsKept :
      (p q : Text) (ps : List Text) (s : S) (r : Unlinked × S) (next : S → Deletions S)
      → unlink s p ≡ r
      → Ordered (p ∷ q ∷ ps)
      → ((t : S) → IsKept (q ∷ ps) t (next t))
      → IsKept (p ∷ q ∷ ps) s (after_unlink p (q ∷ ps) r next)
  unfolding after_unlink
  after_unlink-IsKept p q ps s (unlinked, t) next e h k =
      let kept = k t in
      (
        kept.0 ∙ ap (λ r. unlink_each (next t).tried r.1) (sym e),
        kept.1,
        (Before-latest p q ps h, kept.2),
        kept.3,
        kept.4,
      )
  after_unlink-IsKept p q ps s (file_not_found, t) next e h k =
      let kept = k t in
      (
        kept.0 ∙ ap (λ r. unlink_each (next t).tried r.1) (sym e),
        kept.1,
        (Before-latest p q ps h, kept.2),
        kept.3,
        kept.4,
      )
  after_unlink-IsKept p q ps s (unlink_failed, t) next e h k =
      (ap (λ r. r.1) (sym e), refl, (Before-latest p q ps h, tt), h, inl refl)

module _ {S : Type 0} (unlink : S → Text → Unlinked × S) where
  -- For the files of a site, whatever the file system answers: each path that is tried is before
  -- the latest one, which stays in the set; the set stays one, and has at most one file left, or a
  -- deletion has failed other than by not found.
  pub delete_all_but_last-IsKept :
      (files : List Text) (s : S)
      → Ordered files
      → IsKept unlink files s (delete_all_but_last unlink files s)
  unfolding delete_all_but_last
  delete_all_but_last-IsKept [] s h = (refl, refl, tt, tt, inr (omega arith))
  delete_all_but_last-IsKept (p ∷ []) s h = (refl, refl, tt, tt, inr (omega arith))
  delete_all_but_last-IsKept (p ∷ q ∷ ps) s h =
      after_unlink-IsKept unlink p q ps s (unlink s p) (delete_all_but_last unlink (q ∷ ps)) refl h
        (λ s'. delete_all_but_last-IsKept (q ∷ ps) s' h.1)

abbrev pub AllOrdered : List (Text × List Text) → Type 0
AllOrdered [] = Unit
AllOrdered ((site, files) ∷ rest) = Ordered files × AllOrdered rest

abbrev pub AllAtMostOne : List (Text × List Text) → Type 0
AllAtMostOne [] = Unit
AllAtMostOne ((site, files) ∷ rest) = (length files ≤ 1) × AllAtMostOne rest

-- The latest file of each site.
abbrev pub latest_files : List (Text × List Text) → List (Text × Option Text)
latest_files [] = []
latest_files ((site, files) ∷ rest) = (site, latest files) ∷ latest_files rest

-- Of the sites in their order, up to the last one come to, every path tried at a site is before the
-- latest file of that site.
abbrev pub AreEarlier : List (Text × List Text) → List (Text × List Text) → Type 0
AreEarlier sites [] = Unit
AreEarlier [] (unlinks ∷ more) = ⊥
AreEarlier ((site, files) ∷ rest) ((name, tried) ∷ more) =
    (name ≡ site) × All (Before (latest files)) tried × AreEarlier rest more

module _ {S : Type 0} (unlink : S → Text → Unlinked × S) where
  abbrev pub AreKept : List (Text × List Text) → S → Sites S → Type 0
  AreKept sites s r =
      (r.file_system ≡ unlink_all unlink r.unlinks s)
      × (latest_files r.to_be_deleted_files ≡ latest_files sites)
      × AreEarlier sites r.unlinks
      × AllOrdered r.to_be_deleted_files
      × ((r.is_broken ≡ true) ⊎ AllAtMostOne r.to_be_deleted_files)

  joined :
      (left : List Text) {is_failed : Bool} (r : Sites S)
      → is_failed ≡ false
      → (is_failed ≡ true) ⊎ (length left ≤ 1)
      → (r.is_broken ≡ true) ⊎ AllAtMostOne r.to_be_deleted_files
      → (r.is_broken ≡ true) ⊎ ((length left ≤ 1) × AllAtMostOne r.to_be_deleted_files)
  joined left r e (inl bad) more = cc
  joined left r e (inr one) (inl broken) = inl broken
  joined left r e (inr one) (inr more) = inr (one, more)

  go_on_with-AreKept :
      (b : Bool) (site : Text) (files : List Text) (rest : List (Text × List Text)) (s : S)
      (d : Deletions S) (next : S → Sites S)
      → d.is_failed ≡ b
      → IsKept unlink files s d
      → AllOrdered rest
      → ((t : S) → AreKept rest t (next t))
      → AreKept ((site, files) ∷ rest) s (go_on_with b site rest d next)
  unfolding go_on_with
  go_on_with-AreKept true site files rest s d next e h o k =
      (h.0, ap (λ l. (site, l) ∷ latest_files rest) h.1, (refl, h.2, tt), (h.3, o), inl refl)
  go_on_with-AreKept false site files rest s d next e h o k =
      let more = k d.files in
      (
        more.0 ∙ ap (unlink_all unlink (next d.files).unlinks) h.0,
        ap (λ l. (site, l) ∷ latest_files (next d.files).to_be_deleted_files) h.1
            ∙ ap (λ r. (site, latest files) ∷ r) more.1,
        (refl, h.2, more.2),
        (h.3, more.3),
        joined d.left (next d.files) e h.4 more.4,
      )

module _ {S : Type 0} (unlink : S → Text → Unlinked × S) where
  deleted_unneeded_files-AreKept :
      (sites : List (Text × List Text)) (s : S)
      → AllOrdered sites
      → AreKept unlink sites s (deleted_unneeded_files unlink sites s)
  unfolding deleted_unneeded_files
  deleted_unneeded_files-AreKept [] s h = (refl, refl, tt, tt, inr tt)
  deleted_unneeded_files-AreKept ((site, files) ∷ rest) s h =
      let d = delete_all_but_last unlink files s in
      go_on_with-AreKept unlink d.is_failed site files rest s d (deleted_unneeded_files unlink rest)
        refl (delete_all_but_last-IsKept unlink files s h.0) h.1
        (λ s'. deleted_unneeded_files-AreKept rest s' h.1)

add_file-AllOrdered :
    (site path : Text) (sites : List (Text × List Text))
    → AllOrdered sites
    → AllOrdered (add_file site path sites)
unfolding add_file insert
add_file-AllOrdered site path [] h = (tt, tt)
add_file-AllOrdered site path ((name, files) ∷ rest) h = elim (Bool-cases (text_eq name site)) [
  | inl e ↦ rw e (insert-Ordered path files h.0, h.1)
  | inr e ↦ rw e (h.0, add_file-AllOrdered site path rest h.1)
]

module _ {S : Type 0} (unlink : S → Text → Unlinked × S) where
  -- An event with a site and a path, if the sets of paths are sets, and whatever the file system
  -- answers: the path joins the set of its site; the deletions that the file system has seen are
  -- those tried at the sites, each of a path before the latest one of its site, which is so not
  -- deleted; the latest path of every site is still
  -- the latest of its set afterwards; the sets stay sets, and each has at most one path left, or an
  -- exception has come out.
  pub handle_deletion-AreKept :
      (n : ℕ) (site path : Text) (sites : List (Text × List Text)) (s : S)
      → AllOrdered sites
      → AreKept unlink
          (add_file (n ∷ site) path sites)
          s
          (handle_deletion unlink (n ∷ site) (some path) sites s)
  unfolding handle_deletion
  handle_deletion-AreKept n site path sites s h =
      deleted_unneeded_files-AreKept unlink (add_file (n ∷ site) path sites) s
        (add_file-AllOrdered (n ∷ site) path sites h)
