-- ===== src/Supervisor/Bounded.antt =====
-- The theorem about `_authorized_actions`.
use Prim.Native.Char.{Char, code}
use Prim.Native.String.{count, String.[], String.◌∷◌}
use text.Mathlib.TextLemmas.{length-cons}
use writ_ai.Prelude.{
  ℕ, zero, suc, ◌+◌, ◌≤◌, ◌<◌, String, true, false, ◌||◌, ◌==◌, ◌≡◌, refl, sym, subst, List, [],
  ◌∷◌, ◌++◌, map, contains, length, length-append, Each, arith, eqb, ltb, Bool-cases, inl, inr,
  if◌then◌else◌,
}
use writ_ai.Prelude.Decimal.{append_text}
use writ_ai.Domain.{PlanAction}
use writ_ai.Supervisor.Texts.{is_space, strip_right, take_text}
use writ_ai.Supervisor.Actions.{action_text, authorized_actions_of, bound_texts, normalize, shorten}

count-take_text : (n : ℕ) (s : String) → count (take_text n s) ≤ n
unfolding take_text
count-take_text zero s = omega arith
count-take_text (suc n) [] = omega arith
count-take_text (suc n) (c ∷ s) = omega (arith, count-take_text n s, length-cons c (take_text n s))

longer_tail : (c : Char) (s t : String) → count t ≤ count s → count (c ∷ t) ≤ count (c ∷ s)
longer_tail c s t h = omega (arith, h, length-cons c s, length-cons c t)

keep_tail :
    (c : Char) (s t : String)
    → count t ≤ count s
    → count (elim t [ [] ↦ if is_space (code c) then [] else c ∷ [] | d ∷ u ↦ c ∷ d ∷ u ])
      ≤ count (c ∷ s)
keep_tail c s [] h = elim (Bool-cases (is_space (code c))) [
  | inl space ↦ rw space (omega arith)
  | inr other ↦ rw other (longer_tail c s [] h)
]
keep_tail c s (d ∷ u) h = longer_tail c s (d ∷ u) h

count-strip_right : (s : String) → count (strip_right s) ≤ count s
unfolding strip_right
count-strip_right [] = omega arith
count-strip_right (c ∷ s) = keep_tail c s (strip_right s) (count-strip_right s)

count-append_text : (s t : String) → count (append_text s t) ≡ count s + count t
count-append_text [] t = omega arith
count-append_text (c ∷ s) t =
    omega (arith, count-append_text s t, length-cons c s, length-cons c (append_text s t))

count-shorten : (s : String) → count (shorten s) ≤ 1000
unfolding shorten
count-shorten s = elim (Bool-cases (ltb 1000 (count s))) [
  | inl long ↦ ground (
    arith,
    long,
    count-append_text (strip_right (take_text 997 s)) "...",
    count-strip_right (take_text 997 s),
    count-take_text 997 s,
  )
  | inr short ↦ ground (arith, short)
]

-- What is kept of the texts, so far.
abbrev pub Bounded : List String → Type 0
Bounded texts = (length texts ≤ 20) × Each (λ (t : String). count t ≤ 1000) texts

Each-append :
    (xs : List String) (t : String)
    → Each (λ (s : String). count s ≤ 1000) xs
    → count t ≤ 1000
    → Each (λ (s : String). count s ≤ 1000) (xs ++ t ∷ [])
Each-append [] t h one = (one, tt)
Each-append (x ∷ xs) t h one = (h.0, Each-append xs t h.1 one)

bound_texts_skip :
    (value : String) (rest kept : List String)
    → ((normalize value == "") || contains kept (normalize value)) ≡ true
    → bound_texts kept (value ∷ rest) ≡ bound_texts kept rest
unfolding bound_texts
bound_texts_skip value rest kept h = rw (h, bound_texts) refl

bound_texts_full :
    (value : String) (rest kept : List String)
    → ((normalize value == "") || contains kept (normalize value)) ≡ false
    → eqb (length (kept ++ shorten (normalize value) ∷ [])) 20 ≡ true
    → bound_texts kept (value ∷ rest) ≡ kept ++ shorten (normalize value) ∷ []
unfolding bound_texts
bound_texts_full value rest kept h full = rw (h, bound_texts) (rw full refl)

bound_texts_room :
    (value : String) (rest kept : List String)
    → ((normalize value == "") || contains kept (normalize value)) ≡ false
    → eqb (length (kept ++ shorten (normalize value) ∷ [])) 20 ≡ false
    → bound_texts kept (value ∷ rest) ≡ bound_texts (kept ++ shorten (normalize value) ∷ []) rest
unfolding bound_texts
bound_texts_room value rest kept h room = rw (h, bound_texts) (rw room refl)

bound_texts-Bounded :
    (values kept : List String)
    → length kept < 20
    → Each (λ (t : String). count t ≤ 1000) kept
    → Bounded (bound_texts kept values)
bound_texts-Bounded [] kept few short = unfold bound_texts in (omega (arith, few), short)
bound_texts-Bounded (value ∷ rest) kept few short =
    let more : List String = kept ++ shorten (normalize value) ∷ [] in
    let short' =
      Each-append kept (shorten (normalize value)) short (count-shorten (normalize value)) in
    let longer = length-append kept (shorten (normalize value) ∷ []) in
    elim (Bool-cases ((normalize value == "") || contains kept (normalize value))) [
      | inl skipped ↦
          subst Bounded (sym (bound_texts_skip value rest kept skipped))
            (bound_texts-Bounded rest kept few short)
      | inr taken ↦ elim (Bool-cases (eqb (length more) 20)) [
        | inl full ↦
            subst Bounded (sym (bound_texts_full value rest kept taken full))
              (ground (arith, full), short')
        | inr room ↦
            subst Bounded (sym (bound_texts_room value rest kept taken room))
              (bound_texts-Bounded rest more (ground (arith, room, few, longer)) short')
      ]
    ]

-- An agent is given at most 20 texts, each of at most 1,000 characters, whatever the plan says.
pub authorized_actions_of-Bounded :
    (actions : List PlanAction) → Bounded (authorized_actions_of actions)
unfolding authorized_actions_of
authorized_actions_of-Bounded actions =
    bound_texts-Bounded (map action_text actions) [] (omega arith) tt
