-- ===== src/Publication/Safety/Agreement.antt =====
-- publication-deletion-safety.ts: the service's guard and the retention job's SQL agree.
use work_copilot.Base.{
  String, Bool, true, Option, none, some, List, [], ◌∷◌, ◌==◌, ◌&&◌, ◌||◌, if◌then◌else◌, ◌≡◌, inl,
  inr, refl, arith, any, filter, is_some, Memᴰ, ◌∙◌, ap, any-filter, Option-cases, Bool-cases, sym,
  eq_iff, subst,
}
use work_copilot.Publication.Safety.{
  StoredPublicationForDeletion, StoredPublicationStepForDeletion,
  publication_blocks_draft_deletion_sql, is_active, is_true, publication_by_id, or_null, left_join,
}
use work_copilot.Publication.Types.{is_running, is_indeterminate, is_real, is_succeeded}

abbrev pub blocks_alone : StoredPublicationForDeletion → Bool
blocks_alone p = is_active p.status || is_real p.execution_mode && is_some p.confluence_content_id

abbrev pub blocks_with : StoredPublicationForDeletion → StoredPublicationStepForDeletion → Bool
blocks_with p s =
    is_running s.status
    || is_indeterminate s.error_code
    || is_real p.execution_mode && is_succeeded s.status && is_some s.provider_object_id

sql_alone :
    (p : StoredPublicationForDeletion)
    → is_true (publication_blocks_draft_deletion_sql p none) ≡ blocks_alone p
unfolding publication_blocks_draft_deletion_sql
sql_alone p = ground arith

sql_with :
    (p : StoredPublicationForDeletion) (s : StoredPublicationStepForDeletion)
    → is_true (publication_blocks_draft_deletion_sql p (some s))
      ≡ (blocks_alone p || blocks_with p s)
unfolding publication_blocks_draft_deletion_sql
sql_with p s = ground arith

any-or_null :
    (p : StoredPublicationForDeletion) (ss : List StoredPublicationStepForDeletion)
    → any (λ j. is_true (publication_blocks_draft_deletion_sql p j)) (or_null ss)
      ≡ (blocks_alone p || any (blocks_with p) ss)
any-or_null p [] = rw sql_alone refl
any-or_null p (s ∷ []) = ground (arith, sql_with p s)
any-or_null p (s ∷ r ∷ ss) = ground (arith, sql_with p s, any-or_null p (r ∷ ss))

pub any-left_join :
    (p : StoredPublicationForDeletion) (ss : List StoredPublicationStepForDeletion)
    → any (λ j. is_true (publication_blocks_draft_deletion_sql p j)) (left_join p ss)
      ≡ (blocks_alone p || any (λ s. (s.publication_id == p.id) && blocks_with p s) ss)
unfolding left_join
any-left_join p ss =
    any-or_null p (filter (λ s. s.publication_id == p.id) ss)
    ∙ ap (λ b. blocks_alone p || b) (any-filter (blocks_with p) (λ s. s.publication_id == p.id) ss)

pub by_id-mem :
    (ps : List StoredPublicationForDeletion) (i : String) {p : StoredPublicationForDeletion}
    → publication_by_id ps i ≡ some p
    → Memᴰ p ps × ((i == p.id) ≡ true)
by_id-mem [] i e = cc
by_id-mem (q ∷ ps) i {p} e = elim (Option-cases (publication_by_id ps i)) [
  | inl missing ↦
      let here : (if q.id == i then some q else none) ≡ some p = rw missing at e in
      elim (Bool-cases (q.id == i)) [
        | inl same ↦
            let some_eq : some q ≡ some p = rw same at here in
            let q_eq : q ≡ p = cc some_eq in
            (
              Memᴰ.head (sym q_eq),
              (eq_iff i p.id).1 (sym ((eq_iff q.id i).0 same) ∙ ap (λ x. x.id) q_eq),
            )
        | inr other ↦
            let bad : ◌≡◌ {A = Option StoredPublicationForDeletion} none (some p) =
              rw other at here in
            cc bad
      ]
  | inr (r, found) ↦
      let some_eq : some r ≡ some p = rw found at e in
      let r_eq : r ≡ p = cc some_eq in
      let (m, same) = by_id-mem ps i {p = r} found in
      (Memᴰ.tail (subst (λ x. Memᴰ x ps) r_eq m), subst (λ x. (i == x.id) ≡ true) r_eq same)
]
