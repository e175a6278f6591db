-- ===== src/Interrupts/Partition.antt =====
-- The partition of the assignments.
use writ_ai.Prelude.{
  String, Bool, not, ◌&&◌, ◌==◌, ◌≡◌, refl, ◌∙◌, List, [], ◌∷◌, contains, contains-any, any, filter,
  arith,
}
use writ_ai.Prelude.Sorting.{any-sort_by, sort_texts, text_le}
use writ_ai.Supervisor.{SupervisorAssignment}
use writ_ai.Interrupts.{InterruptRequest, assignment_ids, is_active, is_hit, partition}

contains-assignment_ids :
    (xs : List SupervisorAssignment) (p q : SupervisorAssignment → Bool) (k : String)
    → contains (sort_texts (assignment_ids (filter p (filter q xs)))) k
      ≡ any (λ a. (q a && p a) && (a.id == k)) xs
contains-assignment_ids xs p q k =
    contains-any (sort_texts (assignment_ids (filter p (filter q xs)))) k
    ∙ (any-sort_by text_le (λ x. x == k) (assignment_ids (filter p (filter q xs))) ∙ go xs)
  where
    go :
        (ys : List SupervisorAssignment)
        → any (λ x. x == k) (assignment_ids (filter p (filter q ys)))
          ≡ any (λ a. (q a && p a) && (a.id == k)) ys
    go [] = refl
    go (y ∷ ys) = ground (arith, go ys)

-- An interrupt stops exactly the assignments that are live, not completed and share a scope with the
-- change, and preserves exactly those that are live, not completed and share none.
pub partition_exact :
    (xs : List SupervisorAssignment) (request : InterruptRequest) (k : String)
    → (contains (partition xs request).interrupted_assignment_ids k
        ≡ any (λ a. (is_active a && is_hit request a) && (a.id == k)) xs)
      × (contains (partition xs request).preserved_assignment_ids k
          ≡ any (λ a. (is_active a && not (is_hit request a)) && (a.id == k)) xs)
unfolding partition
partition_exact xs request k = (
  contains-assignment_ids xs (is_hit request) is_active k,
  contains-assignment_ids xs (λ a. not (is_hit request a)) is_active k,
)
