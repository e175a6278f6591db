-- ===== src/Workspaces/Refines.antt =====
-- What the store promises: a finite map from ids to records.
use writ_ai.Prelude.{
  String, true, false, List, [], ◌∷◌, ◌++◌, Option, none, some, ◌==◌, ◌≡◌, refl, ap, ◌∙◌, subst,
  fun_ext, eq_iff, arith, inl, inr, Bool-cases, Option-cases, if◌then◌else◌,
}
use writ_ai.Exec.{Result, ok, err, Result-cases, key_error}
use writ_ai.Workspaces.{
  LiveWorkspaceRecord, Document, Answer, Call, gets, creates, saves, mutates, answer, call, run,
  conflict, moved, is_stored, get_record, put_record, create_record, save_record, mutate_record,
  require_same_workspace,
}

abbrev pub Spec : Type 0
Spec = String → Option LiveWorkspaceRecord

abbrev pub update : Spec → LiveWorkspaceRecord → Spec
update spec w k = if w.id == k then some w else spec k

abbrev pub found : String → Option LiveWorkspaceRecord → Answer
found k none = err (key_error k)
found k (some r) = ok (some r)

-- A change of a record that is there, by what the function makes of it.
abbrev pub changed : Spec → String → Result LiveWorkspaceRecord → Answer × Spec
changed spec k (err e) = (err e, spec)
changed spec k (ok w) =
    if w.id == k then (ok (some w), update spec w) else (err (moved k w.id), spec)

abbrev pub promised : Call → Spec → Answer × Spec
promised (gets k) spec = (found k (spec k), spec)
promised (creates w) spec = elim (spec w.id) [
  | none ↦ (ok none, update spec w)
  | some r ↦ (err (conflict w.id), spec)
]
promised (saves w) spec = elim (spec w.id) [
  | none ↦ (err (key_error w.id), spec)
  | some r ↦ (ok none, update spec w)
]
promised (mutates k apply) spec = elim (spec k) [
  | none ↦ (err (key_error k), spec)
  | some r ↦ changed spec k (apply r)
]

-- The record under an id.
unfoldable pub view : Document → Spec
view [] k = none
view (r ∷ rest) k = if r.id == k then some r else view rest k

pub get_record-view :
    (k : String) (document : Document) → answer (get_record k document) ≡ found k (view document k)
unfolding get_record view
get_record-view k [] = refl
get_record-view k (r ∷ rest) = ground (arith, get_record-view k rest)

pub is_stored-view :
    (k : String) (document : Document)
    → is_stored k document ≡ (elim (view document k) [ none ↦ false | some r ↦ true ])
unfolding view
is_stored-view k [] = refl
is_stored-view k (r ∷ rest) = ground (arith, is_stored-view k rest)

view-append :
    (k : String) (document : Document) (w : LiveWorkspaceRecord)
    → view document w.id ≡ none
    → view (document ++ w ∷ []) k ≡ update (view document) w k
unfolding view
view-append k [] w absent = refl
view-append k (r ∷ rest) w absent =
    ground (arith, view-append k rest w, eq_iff r.id w.id, eq_iff r.id k, eq_iff w.id k)

pub view-put_record :
    (k : String) (document : Document) (w r : LiveWorkspaceRecord)
    → view document w.id ≡ some r
    → view (put_record w.id w document) k ≡ update (view document) w k
unfolding view put_record
view-put_record k [] w r there = absurd (ground (arith, there))
view-put_record k (v ∷ rest) w r there =
    ground (arith, view-put_record k rest w r, eq_iff v.id w.id, eq_iff v.id k, eq_iff w.id k)

pub get_record-some :
    (k : String) (document : Document) (r : LiveWorkspaceRecord)
    → view document k ≡ some r
    → get_record k document ≡ ok r
unfolding get_record view
get_record-some k [] r there = absurd (ground (arith, there))
get_record-some k (v ∷ rest) r there = ground (arith, get_record-some k rest r)

pub get_record-none :
    (k : String) (document : Document)
    → view document k ≡ none
    → get_record k document ≡ err (key_error k)
unfolding get_record view
get_record-none k [] absent = refl
get_record-none k (v ∷ rest) absent = ground (arith, get_record-none k rest)

-- What a call of the store comes to, read as a map.
abbrev pub seen : Answer × Document → Answer × Spec
seen (a, document) = (a, view document)

appended :
    (w : LiveWorkspaceRecord) (document : Document)
    → view document w.id ≡ none
    → view (document ++ w ∷ []) ≡ update (view document) w
appended w document absent = fun_ext (λ k. view-append k document w absent)

replaced :
    (w r : LiveWorkspaceRecord) (document : Document)
    → view document w.id ≡ some r
    → view (put_record w.id w document) ≡ update (view document) w
replaced w r document there = fun_ext (λ k. view-put_record k document w r there)

call-create :
    (w : LiveWorkspaceRecord) (document : Document)
    → seen (create_record w document) ≡ promised (creates w) (view document)
unfolding create_record
call-create w document = elim (Option-cases (view document w.id)) [
  | inl absent ↦ ground (arith, is_stored-view w.id document, absent, appended w document absent)
  | inr (r, there) ↦ ground (arith, is_stored-view w.id document, there)
]

call-save :
    (w : LiveWorkspaceRecord) (document : Document)
    → seen (save_record w document) ≡ promised (saves w) (view document)
unfolding save_record
call-save w document = elim (Option-cases (view document w.id)) [
  | inl absent ↦ ground (arith, is_stored-view w.id document, absent)
  | inr (r, there) ↦
      ground (arith, is_stored-view w.id document, there, replaced w r document there)
]

replaced_at :
    (k : String) (w r : LiveWorkspaceRecord) (document : Document)
    → w.id ≡ k
    → view document k ≡ some r
    → view (put_record k w document) ≡ update (view document) w
replaced_at k w r document named there =
    subst
      (λ (j : String).
        view document j ≡ some r → view (put_record j w document) ≡ update (view document) w)
      named (replaced w r document) there

call-mutate :
    (k : String) (apply : LiveWorkspaceRecord → Result LiveWorkspaceRecord) (document : Document)
    → seen (mutate_record k apply document) ≡ promised (mutates k apply) (view document)
unfolding mutate_record require_same_workspace
call-mutate k apply document = elim (Option-cases (view document k)) [
  | inl absent ↦ ground (arith, get_record-none k document absent, absent)
  | inr (r, there) ↦ elim (Result-cases (apply r)) [
    | inr (e, failed) ↦ ground (arith, get_record-some k document r there, there, failed)
    | inl (w, made) ↦ elim (Bool-cases (w.id == k)) [
      | inl same ↦ ground (
        arith,
        get_record-some k document r there,
        there,
        made,
        same,
        replaced_at k w r document ((eq_iff w.id k).0 same) there,
      )
      | inr other ↦ ground (arith, get_record-some k document r there, there, made, other)
    ]
  ]
]

call_refines :
    (c : Call) (document : Document) → seen (call c document) ≡ promised c (view document)
unfolding call
call_refines (gets k) document =
    ap (λ (a : Answer). (a, view document)) (get_record-view k document)
call_refines (creates w) document = call-create w document
call_refines (saves w) document = call-save w document
call_refines (mutates k apply) document = call-mutate k apply document

-- An answer in front of those of the later calls.
abbrev followed : List Call → Answer × Spec → List Answer × Spec
followed calls p = let (answers, spec) = run promised calls p.1 in (p.0 ∷ answers, spec)

-- Any sequence of calls of the JSON store gets the answers that a finite map from ids to records gives to
-- the same calls, and leaves the store with the contents of that map: a record is created under a new id
-- only, saved or mutated under a stored one only, never under another id than its own, and a call that
-- fails changes nothing.
pub run_refines :
    (calls : List Call) (document : Document)
    → let after = run call calls document in
      (after.0, view after.1) ≡ run promised calls (view document)
unfolding run
run_refines [] document = refl
run_refines (c ∷ calls) document =
    let (a, next) = call c document in
    ap (λ (p : List Answer × Spec). (a ∷ p.0, p.1)) (run_refines calls next)
    ∙ ap (followed calls) (call_refines c document)
