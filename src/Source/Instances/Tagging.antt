-- ===== src/Source/Instances/Tagging.antt =====
-- The tests of discovery on tags and engines, and what they test.
use rdstail.Prelude.{
  codes, ◌≢◌, ◌≡◌, ◌⊎◌, inl, inr, refl, sym, ap, subst, All, same, same_iff, ◌∙◌, true, false, ◌||◌,
  none, some, [], ◌∷◌, ◌++◌, Bytes, arith, Bool-cases,
}
use rdstail.Source.Instances.{Tags, normalize_engine, tags_match, excluded, tag_value}

-- The tag is there with the value, and no later one has its key.
abbrev pub IsTagged : Bytes → Bytes → Tags → Type 0
IsTagged k v got =
    (front : Tags) × (back : Tags) × (got ≡ front ++ (k, v) ∷ back)
    × All (λ (kv : Bytes × Bytes). kv.0 ≢ k) back

-- Each wanted tag is there with its value.
abbrev pub HasTags : Tags → Tags → Type 0
HasTags want got = All (λ (kv : Bytes × Bytes). IsTagged kv.0 kv.1 got) want

-- An excluded tag is not there, or it is with a value that is not excluded: another one than the given,
-- which is not "*".
abbrev pub NoTags : Tags → Tags → Type 0
NoTags exclude got =
    All
      (λ (kv : Bytes × Bytes).
        All (λ (g : Bytes × Bytes). g.0 ≢ kv.0) got
        ⊎ ((v : Bytes) × IsTagged kv.0 v got × (v ≢ kv.1) × (kv.1 ≢ codes "*")))
      exclude

tag_value-cases :
    (got : Tags) (k : Bytes)
    → ((tag_value got k ≡ none) × All (λ (g : Bytes × Bytes). g.0 ≢ k) got)
      ⊎ ((v : Bytes) × (tag_value got k ≡ some v) × IsTagged k v got)
unfolding tag_value
tag_value-cases [] k = inl (refl, tt)
tag_value-cases ((j, u) ∷ got) k = elim (tag_value-cases got k) [
  | inr (v, found, (front, back, e, apart)) ↦
      inr (v, rw (found, tag_value) refl, ((j, u) ∷ front, back, ap (λ l. (j, u) ∷ l) e, apart))
  | inl (missing, apart) ↦ elim (Bool-cases (same j k)) [
    | inl here ↦
        let key_is = (same_iff j k).0 here in
        inr (u, ground (arith, missing, here), ([], got, ap (λ i. (i, u) ∷ got) key_is, apart))
    | inr other ↦
        inl (ground (arith, missing, other), (λ e. ground (arith, e, other, same_iff j k), apart))
  ]
]

tag_value-absent :
    (got : Tags) (k : Bytes) → All (λ (g : Bytes × Bytes). g.0 ≢ k) got → tag_value got k ≡ none
unfolding tag_value
tag_value-absent [] k h = refl
tag_value-absent ((j, u) ∷ got) k h = ground (arith, h.0, tag_value-absent got k h.1, same_iff j k)

tag_value-append :
    (front back : Tags) (k v : Bytes)
    → All (λ (g : Bytes × Bytes). g.0 ≢ k) back
    → tag_value (front ++ (k, v) ∷ back) k ≡ some v
unfolding tag_value
tag_value-append [] back k v h = ground (arith, tag_value-absent back k h, same_iff k k)
tag_value-append ((j, u) ∷ front) back k v h =
    rw (tag_value-append front back k v h, tag_value) refl

tag_value-IsTagged : (got : Tags) (k v : Bytes) → IsTagged k v got → tag_value got k ≡ some v
tag_value-IsTagged got k v (front, back, e, apart) =
    ap (λ t. tag_value t k) e ∙ tag_value-append front back k v apart

-- No wanted value is empty.
abbrev pub AreValued : Tags → Type 0
AreValued want = All (λ (kv : Bytes × Bytes). kv.1 ≢ []) want

pub tags_match-HasTags :
    (want got : Tags) → AreValued want → tags_match want got ≡ true → HasTags want got
unfolding tags_match
tags_match-HasTags [] got valued h = tt
tags_match-HasTags ((k, v) ∷ want) got valued h = (
  elim (tag_value-cases got k) [
    | inl (missing, apart) ↦
        absurd (valued.0 (sym ((same_iff [] v).0 (ground (arith, h, missing)))))
    | inr (u, found, tagged) ↦
        subst (λ x. IsTagged k x got) ((same_iff u v).0 (ground (arith, h, found))) tagged
  ],
  tags_match-HasTags want got valued.1 (ground (arith, h)),
)

pub HasTags-tags_match : (want got : Tags) → HasTags want got → tags_match want got ≡ true
unfolding tags_match
HasTags-tags_match [] got h = refl
HasTags-tags_match ((k, v) ∷ want) got (here, rest) =
    ground (arith, tag_value-IsTagged got k v here, HasTags-tags_match want got rest, same_iff v v)

pub excluded-NoTags : (exclude got : Tags) → excluded exclude got ≡ false → NoTags exclude got
unfolding excluded
excluded-NoTags [] got h = tt
excluded-NoTags ((k, v) ∷ exclude) got h = (
  elim (tag_value-cases got k) [
    | inl (missing, apart) ↦ inl apart
    | inr (u, found, tagged) ↦ inr (
      u,
      tagged,
      (λ e. absurd (ground (arith, h, found, e, same_iff u v))),
      (λ e. absurd (ground (arith, h, found, e, same_iff v (codes "*")))),
    )
  ],
  excluded-NoTags exclude got (ground (arith, h)),
)

pub NoTags-excluded : (exclude got : Tags) → NoTags exclude got → excluded exclude got ≡ false
unfolding excluded
NoTags-excluded [] got h = refl
NoTags-excluded ((k, v) ∷ exclude) got (here, rest) =
    let others = NoTags-excluded exclude got rest in
    elim here [
      | inl apart ↦ ground (arith, tag_value-absent got k apart, others)
      | inr (u, tagged, other, named) ↦ ground (
        arith,
        tag_value-IsTagged got k u tagged,
        others,
        other,
        named,
        same_iff u v,
        same_iff v (codes "*"),
      )
    ]

-- The engines whose logs can be tailed, by the name that RDS gives them in lower case.
abbrev pub IsTailed : Bytes → Bytes → Type 0
IsTailed name engine =
    ((engine ≡ codes "postgres") × ((name ≡ codes "postgres") ⊎ (name ≡ codes "aurora-postgresql")))
    ⊎ (((engine ≡ codes "mysql")
          × ((name ≡ codes "mysql") ⊎ ((name ≡ codes "aurora-mysql") ⊎ (name ≡ codes "aurora"))))
        ⊎ ((engine ≡ codes "mariadb") × (name ≡ codes "mariadb")))

-- A text that is one of two.
one_of : (s a b : Bytes) → (same s a || same s b) ≡ true → (s ≡ a) ⊎ (s ≡ b)
one_of s a b h = elim (Bool-cases (same s a)) [
  | inl is_a ↦ inl ((same_iff s a).0 is_a)
  | inr other ↦ inr ((same_iff s b).0 (ground (arith, h, other)))
]

one_of_three :
    (s a b c : Bytes) → (same s a || same s b || same s c) ≡ true → (s ≡ a) ⊎ ((s ≡ b) ⊎ (s ≡ c))
one_of_three s a b c h = elim (Bool-cases (same s a)) [
  | inl is_a ↦ inl ((same_iff s a).0 is_a)
  | inr other ↦ inr (one_of s b c (ground (arith, h, other)))
]

pub normalize_engine-IsTailed :
    (name engine : Bytes) → normalize_engine name ≡ some engine → IsTailed name engine
unfolding normalize_engine
normalize_engine-IsTailed name engine h =
    let pg = same name (codes "postgres") || same name (codes "aurora-postgresql") in
    let my =
      same name (codes "mysql") || same name (codes "aurora-mysql") || same name (codes "aurora") in
    elim (Bool-cases pg) [
      | inl is_pg ↦ inl (ground (arith, is_pg, h), one_of name _ _ is_pg)
      | inr not_pg ↦ elim (Bool-cases my) [
        | inl is_my ↦ inr (inl (ground (arith, not_pg, is_my, h), one_of_three name _ _ _ is_my))
        | inr not_my ↦ elim (Bool-cases (same name (codes "mariadb"))) [
          | inl is_maria ↦ inr (
              inr (
                ground (arith, not_pg, not_my, is_maria, h),
                (same_iff name (codes "mariadb")).0 is_maria,
              ))
          | inr unknown ↦ absurd (ground (arith, not_pg, not_my, unknown, h))
        ]
      ]
    ]

pub IsTailed-normalize_engine :
    (name engine : Bytes) → IsTailed name engine → normalize_engine name ≡ some engine
unfolding normalize_engine same
IsTailed-normalize_engine name engine (inl (e, inl n)) = ap normalize_engine n ∙ ap some (sym e)
IsTailed-normalize_engine name engine (inl (e, inr n)) = ap normalize_engine n ∙ ap some (sym e)
IsTailed-normalize_engine name engine (inr (inl (e, inl n))) =
    ap normalize_engine n ∙ ap some (sym e)
IsTailed-normalize_engine name engine (inr (inl (e, inr (inl n)))) =
    ap normalize_engine n ∙ ap some (sym e)
IsTailed-normalize_engine name engine (inr (inl (e, inr (inr n)))) =
    ap normalize_engine n ∙ ap some (sym e)
IsTailed-normalize_engine name engine (inr (inr (e, n))) = ap normalize_engine n ∙ ap some (sym e)
