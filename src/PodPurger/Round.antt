-- ===== src/PodPurger/Round.antt =====
-- What a round over the pods deletes.
use katalyst.Prelude.{ℕ, String, ◌≡◌, ◌↔◌, Bool, true, some, List, ◌++◌, keep}
use katalyst.Prelude.Float64.{Float64}
use katalyst.PodPurger.{Pod, World, purge_all}
use katalyst.PodPurger.Purge.{is_purgeable, delete_all, deletion_events, Records, purge_all-keep}
use katalyst.PodPurger.Status.{IsPurgeable}
use katalyst.PodPurger.Status.Decision.{is_purgeable-IsPurgeable}

module _ (Fl : Float64) {C : Type 0} (delete : String → String → C → C × Bool)
    (describe : Pod → Bool → String) where
  -- The loop over the pods of an enabled purger deletes exactly the pods in no system namespace, not the
  -- program's own by their labels, of a bad status and as old as asked for, in the order of the list, and
  -- hands one audit event for each of them to the writer, in the same order, that says whether the deletion
  -- succeeded. The status is what the first init container says that neither succeeded nor is empty, else
  -- the first container with a reason, else the phase. The audit log has a size and a writer.
  pub purge_all-delete_all :
      (min_age now : ℕ) (pods : List Pod) (w : World Fl delete describe)
      → Records Fl delete describe w
      → (v : World Fl delete describe) × (purge_all Fl delete describe min_age now pods w ≡ some v)
        × (v.cluster
            ≡ delete_all Fl delete describe (keep (is_purgeable min_age now) pods) w.cluster)
        × (v.audit.handed_over
            ≡ w.audit.handed_over
              ++ deletion_events Fl delete describe now
                  (keep (is_purgeable min_age now) pods)
                  w.cluster)
        × ((p : Pod) → (is_purgeable min_age now p ≡ true) ↔ IsPurgeable min_age now p)
  purge_all-delete_all min_age now pods w r =
      let (v, done, cluster, _, events) = purge_all-keep Fl delete describe min_age now pods w r in
      (v, done, cluster, events, is_purgeable-IsPurgeable min_age now)
