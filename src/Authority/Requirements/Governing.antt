-- ===== src/Authority/Requirements/Governing.antt =====
-- The theorem about `current_requirements`.
use writ_ai.Prelude.{
  ◌≤◌, String, Bool, false, ◌==◌, ◌≡◌, refl, sym, subst, ◌∙◌, ◌⊎◌, inl, inr, List, [], ◌∷◌, none,
  some, arith, eq_iff, Bool-cases, if◌then◌else◌,
}
use writ_ai.Prelude.Sorting.{sort_by, insert_sorted}
use writ_ai.Exec.{ok}
use writ_ai.Dict.{Dict, lookup, insert, lookup-insert}
use writ_ai.Domain.Value.{Value}
use writ_ai.Graph.{Store, list_artifacts}
use writ_ai.Authority.Requirements.{
  Candidate, candidates, current_requirements, effective_order, latest,
}

abbrev pub In : Candidate → List Candidate → Type 0
In c [] = ⊥
In c (d ∷ rest) = (d ≡ c) ⊎ In c rest

abbrev Sorted : List Candidate → Type 0
Sorted [] = Unit
Sorted (c ∷ rest) = ((d : Candidate) → In d rest → c.effective_at ≤ d.effective_at) × Sorted rest

abbrev sorted : List Candidate → List Candidate
sorted cs = sort_by effective_order cs

In-insert_sorted :
    (c x : Candidate) (ys : List Candidate)
    → In c (insert_sorted effective_order x ys)
    → (x ≡ c) ⊎ In c ys
unfolding insert_sorted
In-insert_sorted c x [] h = h
In-insert_sorted c x (y ∷ ys) h = elim (Bool-cases (effective_order x y)) [
  | inl le ↦
      subst (λ b. In c (if b then x ∷ y ∷ ys else y ∷ insert_sorted effective_order x ys)) le h
  | inr gt ↦
      elim (subst (λ b. In c (if b then x ∷ y ∷ ys else y ∷ insert_sorted effective_order x ys)) gt
        h) [
          | inl first ↦ inr (inl first)
          | inr later ↦ elim (In-insert_sorted c x ys later) [ inl e ↦ inl e | inr m ↦ inr (inr m) ]
        ]
]

In-of_insert_sorted :
    (c x : Candidate) (ys : List Candidate)
    → (x ≡ c) ⊎ In c ys
    → In c (insert_sorted effective_order x ys)
unfolding insert_sorted
In-of_insert_sorted c x [] h = h
In-of_insert_sorted c x (y ∷ ys) h =
    let family : Bool → Type 0 =
      λ b. In c (if b then x ∷ y ∷ ys else y ∷ insert_sorted effective_order x ys) in
    elim (Bool-cases (effective_order x y)) [
      | inl le ↦ subst family (sym le) h
      | inr gt ↦ subst family (sym gt) (elim h [
        | inl e ↦ inr (In-of_insert_sorted c x ys (inl e))
        | inr (inl first) ↦ inl first
        | inr (inr later) ↦ inr (In-of_insert_sorted c x ys (inr later))
      ])
    ]

insert_sorted-Sorted :
    (x : Candidate) (ys : List Candidate) → Sorted ys → Sorted (insert_sorted effective_order x ys)
unfolding insert_sorted
insert_sorted-Sorted x [] h = (λ d m. absurd m, tt)
insert_sorted-Sorted x (y ∷ ys) h =
    let family : Bool → Type 0 =
      λ b. Sorted (if b then x ∷ y ∷ ys else y ∷ insert_sorted effective_order x ys) in
    elim (Bool-cases (effective_order x y)) [
      | inl le ↦
          let first : x.effective_at ≤ y.effective_at = ground (arith, le) in
          subst family (sym le) (
            λ d m. elim m [
              | inl e ↦ subst (λ (z : Candidate). x.effective_at ≤ z.effective_at) e first
              | inr later ↦ omega (arith, first, h.0 d later)
            ],
            h,
          )
      | inr gt ↦
          let less : y.effective_at ≤ x.effective_at = ground (arith, gt) in
          subst family (sym gt) (
            λ d m. elim (In-insert_sorted d x ys m) [
              | inl e ↦ subst (λ (z : Candidate). y.effective_at ≤ z.effective_at) e less
              | inr later ↦ h.0 d later
            ],
            insert_sorted-Sorted x ys h.1,
          )
    ]

sorted-Sorted : (cs : List Candidate) → Sorted (sorted cs)
unfolding sort_by
sorted-Sorted [] = tt
sorted-Sorted (c ∷ cs) = insert_sorted-Sorted c (sorted cs) (sorted-Sorted cs)

In-sorted : (c : Candidate) (cs : List Candidate) → In c (sorted cs) → In c cs
unfolding sort_by
In-sorted c [] h = h
In-sorted c (d ∷ cs) h = elim (In-insert_sorted c d (sorted cs) h) [
  | inl e ↦ inl e
  | inr m ↦ inr (In-sorted c cs m)
]

In-of_sorted : (c : Candidate) (cs : List Candidate) → In c cs → In c (sorted cs)
unfolding sort_by
In-of_sorted c [] h = h
In-of_sorted c (d ∷ cs) h =
    In-of_insert_sorted c d (sorted cs)
      (elim h [ inl e ↦ inl e | inr m ↦ inr (In-of_sorted c cs m) ])

-- A candidate for a scope after which none for that scope takes effect.
pub record Governs (cs : List Candidate) (scope : String) (c : Candidate) : Type 0 where
  pub member : In c cs
  pub same_scope : c.scope ≡ scope
  pub last : (d : Candidate) → In d cs → d.scope ≡ scope → d.effective_at ≤ c.effective_at

-- No candidate is for the scope.
abbrev pub Ungoverned : List Candidate → String → Type 0
Ungoverned cs scope = (d : Candidate) → In d cs → (d.scope == scope) ≡ false

lookup-latest :
    (scope : String) (cs : List Candidate) (d : Dict Value)
    → Sorted cs
    → (Ungoverned cs scope × (lookup scope (latest d cs) ≡ lookup scope d))
      ⊎ ((c : Candidate) × Governs cs scope c × (lookup scope (latest d cs) ≡ some c.requirement))
unfolding latest
lookup-latest scope [] d h = inl (λ e m. absurd m, refl)
lookup-latest scope (c ∷ cs) d h =
    elim (lookup-latest scope cs (insert c.scope c.requirement d) h.1) [
      | inr (e, governs, found) ↦ inr (
        e,
        record {
          member = inr governs.member;
          same_scope = governs.same_scope;
          last = λ x m s. elim m [
            | inl first ↦
                subst (λ (z : Candidate). z.effective_at ≤ e.effective_at) first
                  (h.0 e governs.member)
            | inr later ↦ governs.last x later s
          ];
        },
        found,
      )
      | inl (none_later, kept) ↦ elim (Bool-cases (c.scope == scope)) [
        | inl same ↦ inr (
          c,
          record {
            member = inl refl;
            same_scope = (eq_iff c.scope scope).0 same;
            last = λ x m s. elim m [
              | inl first ↦
                  subst (λ (z : Candidate). z.effective_at ≤ c.effective_at) first (omega arith)
              | inr later ↦ absurd (ground (arith, none_later x later, (eq_iff x.scope scope).1 s))
            ];
          },
          kept ∙ (lookup-insert c.scope scope c.requirement d ∙ ground (arith, same)),
        )
        | inr other ↦ inl (
          λ x m. elim m [
            | inl first ↦ subst (λ (z : Candidate). (z.scope == scope) ≡ false) first other
            | inr later ↦ none_later x later
          ],
          kept ∙ (lookup-insert c.scope scope c.requirement d ∙ ground (arith, other)),
        )
      ]
    ]

-- When the stored artifacts yield candidates, the requirements in force can be read, and that for a scope
-- is the requirement of a candidate for it after which none for it takes effect; a scope has none exactly
-- if no candidate is for it.
pub current_requirements-Governs :
    (s : Store) (cs : List Candidate) (scope : String)
    → candidates (list_artifacts s) ≡ ok cs
    → (d : Dict Value) × (current_requirements s ≡ ok d)
      × ((Ungoverned cs scope × (lookup scope d ≡ none))
          ⊎ ((c : Candidate) × Governs cs scope c × (lookup scope d ≡ some c.requirement)))
unfolding current_requirements lookup
current_requirements-Governs s cs scope h = (
  latest [] (sorted cs),
  ground (arith, h),
  elim (lookup-latest scope (sorted cs) [] (sorted-Sorted cs)) [
    | inl (never, missing) ↦ inl (λ x m. never x (In-of_sorted x cs m), missing)
    | inr (c, governs, found) ↦ inr (
      c,
      record {
        member = In-sorted c cs governs.member;
        same_scope = governs.same_scope;
        last = λ x m e. governs.last x (In-of_sorted x cs m) e;
      },
      found,
    )
  ],
)
