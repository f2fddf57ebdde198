-- ===== src/Source/Discovery/Complete.antt =====
-- What DiscoverFiles returns of the pages that there are.
use rdstail.Prelude.{
  ℕ, zero, suc, ◌≤◌, ◌≡◌, refl, sym, ap, ◌∙◌, Option, none, some, List, [], ◌∷◌, ◌++◌, Bytes, arith,
  append-nil, append_assoc, keep_if, length,
}
use rdstail.Failure.{Result, ok}
use rdstail.Source.FileMeta.{FileMeta}
use rdstail.Source.Discovery.{
  Classifier, accepts, accepted, FilesCall, FilesPage, filter_for, discover_from, discover_files,
}

module _ (api : FilesCall → Result FilesPage) (c : Classifier) where
  -- The pages that the API has from a marker on, up to the last.
  pub data Pages : Option Bytes → List (List FileMeta) → Type 0 where
    last_page :
        (marker : Option Bytes) (files : List FileMeta)
        → api (record { contains = filter_for c; marker = marker })
          ≡ ok (record { files = files; marker = [] })
        → Pages marker (files ∷ [])
    next_page :
        (marker : Option Bytes) (files : List FileMeta) (b : ℕ) (next : Bytes)
        {rest : List (List FileMeta)}
        → api (record { contains = filter_for c; marker = marker })
          ≡ ok (record { files = files; marker = b ∷ next })
        → Pages (some (b ∷ next)) rest
        → Pages marker (files ∷ rest)

abbrev pub all_files : List (List FileMeta) → List FileMeta
all_files [] = []
all_files (fs ∷ pages) = fs ++ all_files pages

module _ (to_lower base_of : Bytes → Bytes) (api : FilesCall → Result FilesPage)
    (c : Classifier) where
  accepted-keep_if :
      (fs : List FileMeta)
      → accepted to_lower base_of c fs ≡ keep_if (λ f. accepts to_lower base_of c f.name) fs
  unfolding accepted
  accepted-keep_if [] = refl
  accepted-keep_if (f ∷ fs) = ground (arith, accepted-keep_if fs)

  keep_if-append :
      (fs gs : List FileMeta)
      → keep_if (λ f. accepts to_lower base_of c f.name) (fs ++ gs)
        ≡ keep_if (λ f. accepts to_lower base_of c f.name) fs
          ++ keep_if (λ f. accepts to_lower base_of c f.name) gs
  keep_if-append [] gs = refl
  keep_if-append (f ∷ fs) gs = ground (arith, keep_if-append fs gs)

  discover_from-Pages :
      (n : ℕ) (marker : Option Bytes) (out : List FileMeta) {pages : List (List FileMeta)}
      → Pages api c marker pages
      → length pages ≤ n
      → discover_from to_lower base_of api c n marker out
        ≡ some (ok (out ++ keep_if (λ f. accepts to_lower base_of c f.name) (all_files pages)))
  unfolding discover_from
  discover_from-Pages zero marker out (last_page _ files e) h = absurd (omega (arith, h))
  discover_from-Pages zero marker out (next_page _ files b next e p) h = absurd (omega (arith, h))
  discover_from-Pages (suc n) marker out (last_page _ files e) h =
      rw (e, discover_from, accepted-keep_if files, append-nil files) refl
  discover_from-Pages (suc n) marker out (next_page _ files b next {rest} e p) h =
      let keep : List FileMeta → List FileMeta = keep_if (λ f. accepts to_lower base_of c f.name) in
      let after =
        discover_from-Pages n (some (b ∷ next)) (out ++ accepted to_lower base_of c files) p
          (omega (arith, h)) in
      let joined : (out ++ accepted to_lower base_of c files) ++ keep (all_files rest)
          ≡ out ++ keep (files ++ all_files rest) =
        ap (λ kept. (out ++ kept) ++ keep (all_files rest)) (accepted-keep_if files)
        ∙ append_assoc out (keep files) (keep (all_files rest))
        ∙ ap (λ kept. out ++ kept) (sym (keep_if-append files (all_files rest))) in
      rw (e, discover_from) (after ∙ ap (λ l. some (ok l)) joined)

  -- Whatever pages the API has, DiscoverFiles returns the files of all of them that the classifier
  -- accepts, in their order, if it may make as many calls as there are pages.
  pub discover_files-Pages :
      (n : ℕ) (pages : List (List FileMeta))
      → Pages api c none pages
      → length pages ≤ n
      → discover_files to_lower base_of api c n
        ≡ some (ok (keep_if (λ f. accepts to_lower base_of c f.name) (all_files pages)))
  unfolding discover_files
  discover_files-Pages n pages p h = discover_from-Pages n none [] p h
