-- ===== src/Publication/Tests/Guard.antt =====
-- publication-deletion-safety.ts: the two guards on stored rows.
use work_copilot.Base.{String, true, none, some, [], ◌∷◌, ◌≡◌, refl, ◌≢◌}
use work_copilot.Publication.Safety.{
  assess_publication_deletion_safety, StoredPublicationForDeletion,
  StoredPublicationStepForDeletion, deletion_blocked,
}
use work_copilot.Publication.Safety.FailClosed.{BelongTo, refuses, fail_closed}
use work_copilot.Publication.Safety.Retention.{deletion_blocked-refuses}
use work_copilot.Publication.Tests.{differ}
use work_copilot.Publication.Types.{
  PublicationStatus, PublicationStepStatus, PublicationExecutionMode,
}

abbrev stored : StoredPublicationForDeletion
stored = record {
  id = "p1";
  draft_id = "d1";
  status = PublicationStatus.partially_published;
  execution_mode = PublicationExecutionMode.real;
  confluence_content_id = none;
}

-- The page was written, and only its step knows.
abbrev written : StoredPublicationStepForDeletion
written = record {
  publication_id = "p1";
  status = PublicationStepStatus.succeeded;
  provider_object_id = some "page";
  error_code = none;
}

written-owned : BelongTo (stored ∷ []) (written ∷ [])
written-owned = (refl, tt)

written-refused : refuses (assess_publication_deletion_safety (stored ∷ []) (written ∷ [])) ≡ true
unfolding assess_publication_deletion_safety
written-refused = refl

fail_closed_example : deletion_blocked (stored ∷ []) (written ∷ []) ≡ true
fail_closed_example = fail_closed (stored ∷ []) (written ∷ []) written-owned written-refused

object-named : written.provider_object_id ≢ some ""
object-named e = let same : ◌≡◌ {A = String} "page" "" = cc e in differ "page" "" refl same

deletion_blocked-refuses_example :
    deletion_blocked (stored ∷ []) (written ∷ [])
    ≡ refuses (assess_publication_deletion_safety (stored ∷ []) (written ∷ []))
deletion_blocked-refuses_example =
    deletion_blocked-refuses (stored ∷ []) (written ∷ []) written-owned (tt, tt)
      ((λ e. cc e, tt), (object-named, tt))
