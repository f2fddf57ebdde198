-- ===== src/Config/Sinks.antt =====
-- The sinks of a configuration that Validate accepts, and how a replay finds them.
use rdstail.Prelude.{
  ℕ, suc, ◌≡◌, ◌≢◌, refl, sym, subst, ◌∙◌, false, some, List, [], ◌∷◌, ◌++◌, Bytes, arith, All,
  All-map, same_iff, map,
}
use rdstail.State.{Entries, find, put}
use rdstail.State.Table.{find-put, find-put_ne}
use rdstail.Sink.Decorate.{is_one_of}
use rdstail.Replay.{SinkConfig, by_name}
use rdstail.Config.{Floats, Config, SinkEntry}
use rdstail.Config.Checks.{
  is_blank, check_name, check_sinks, check_filter, validate_sink_shape, validate, problems, concat,
}

append-empty {ℓ} : {A : Type ℓ} (xs ys : List A) → xs ++ ys ≡ [] → (xs ≡ []) × (ys ≡ [])
append-empty [] ys e = (refl, e)
append-empty (x ∷ xs) ys e = absurd (ground (arith, e))

pub concat-empty {ℓ} :
    {A : Type ℓ} (xss : List (List A)) → concat xss ≡ [] → All (λ xs. xs ≡ []) xss
concat-empty [] e = tt
concat-empty (xs ∷ xss) e = let (a, b) = append-empty xs (concat xss) e in (a, concat-empty xss b)

module _ (trim_space to_upper : Bytes → Bytes) (fl : Floats) where
  pub validate-problems :
      (c : Config fl)
      → validate trim_space to_upper fl c ≡ []
      → All (λ ps. ps ≡ []) (problems trim_space to_upper fl c)
  unfolding validate
  validate-problems c h = concat-empty (problems trim_space to_upper fl c) h

  -- A name that is not blank, and that no later sink has.
  abbrev pub IsDistinct : List (SinkEntry fl) → Type 0
  IsDistinct [] = Unit
  IsDistinct (s ∷ ss) =
      (is_blank trim_space to_upper s.name ≡ false)
      × All (λ (t : SinkEntry fl). s.name ≢ t.name) ss
      × IsDistinct ss

  abbrev IsNew : List Bytes → SinkEntry fl → Type 0
  IsNew seen t = is_one_of t.name seen ≡ false

  check_name-fresh :
      (i : ℕ) (name : Bytes) (seen : List Bytes)
      → (check_name trim_space to_upper fl i name seen).0 ≡ []
      → (is_blank trim_space to_upper name ≡ false)
        × (is_one_of name seen ≡ false)
        × ((check_name trim_space to_upper fl i name seen).1 ≡ name ∷ seen)
  check_name-fresh i name seen h = ground (arith, h)

  check_sinks-IsDistinct :
      (i : ℕ) (seen : List Bytes) (ss : List (SinkEntry fl))
      → check_sinks trim_space to_upper fl i seen ss ≡ []
      → All (IsNew seen) ss × IsDistinct ss
  unfolding check_sinks is_one_of
  check_sinks-IsDistinct i seen [] h = (tt, tt)
  check_sinks-IsDistinct i seen (s ∷ ss) h =
      let (a, b) = append-empty (check_filter trim_space to_upper i s.filter) _ h in
      let (named, c) = append-empty (check_name trim_space to_upper fl i s.name seen).0 _ b in
      let (shaped, rest) = append-empty (validate_sink_shape trim_space to_upper fl i s) _ c in
      let (filled, unseen, seen_then) = check_name-fresh i s.name seen named in
      let (new, distinct) =
        check_sinks-IsDistinct (suc i) (s.name ∷ seen) ss
          (subst (λ n. check_sinks trim_space to_upper fl (suc i) n ss ≡ []) seen_then rest) in
      (
        (unseen, All-map _ _ ss (λ t h. ground (arith, h)) new),
        (
          filled,
          All-map _ _ ss (λ t h e. ground (arith, h, e, same_iff t.name s.name)) new,
          distinct,
        ),
      )

  -- What a replay reads of a sink's settings.
  abbrev pub config_of : SinkEntry fl → SinkConfig
  config_of s = record { name = s.name; max_attempts = s.retry.max_attempts }

  find-by_name_other :
      (ss : List (SinkEntry fl)) (m : Entries SinkConfig) (k : Bytes)
      → All (λ (t : SinkEntry fl). k ≢ t.name) ss
      → find (by_name (map config_of ss) m) k ≡ find m k
  unfolding by_name
  find-by_name_other [] m k h = refl
  find-by_name_other (s ∷ ss) m k h =
      find-by_name_other ss (put m s.name (config_of s)) k h.1
      ∙ find-put_ne m s.name (config_of s) k (λ e. h.0 (sym e))

  find-by_name :
      (ss : List (SinkEntry fl)) (m : Entries SinkConfig)
      → IsDistinct ss
      → All
          (λ (s : SinkEntry fl). find (by_name (map config_of ss) m) s.name ≡ some (config_of s))
          ss
  unfolding by_name
  find-by_name [] m h = tt
  find-by_name (s ∷ ss) m h = (
    find-by_name_other ss (put m s.name (config_of s)) s.name h.1 ∙ find-put m s.name (config_of s),
    find-by_name ss (put m s.name (config_of s)) h.2,
  )

  -- In a configuration that Validate accepts no sink's name is blank or used twice, and a replay finds
  -- for the name of each sink that sink's own settings.
  pub validate-names :
      (c : Config fl)
      → validate trim_space to_upper fl c ≡ []
      → IsDistinct c.sinks
        × All
            (λ (s : SinkEntry fl).
              find (by_name (map config_of c.sinks) []) s.name ≡ some (config_of s))
            c.sinks
  unfolding problems
  validate-names c h =
      let none_of = validate-problems c h in
      let (new, distinct) = check_sinks-IsDistinct 0 [] c.sinks none_of.1.1.1.0 in
      (distinct, find-by_name c.sinks [] distinct)
