-- ===== src/Service/Trail.antt =====
-- The audit trail under requests: `InMemoryAuditRepository` as the service uses it.
use mathlib.Core.List.{append-nil, append_assoc}
use lotus_archive.Prelude.{String, ◌≡◌, refl, sym, ap, ◌∙◌, List, [], ◌∷◌, ◌++◌}
use lotus_archive.Exec.{◌>>=◌}
use lotus_archive.Exec.Moves.{IsPreorder, Moves}
use lotus_archive.Environment.{Environment}
use lotus_archive.Audit.{AccessAuditEvent, CallerContext}
use lotus_archive.Service.World.{World, new_id, utc_now, repository_call}
use lotus_archive.Service.Holds.{LegalHoldCreateCommand, mint_hold}
use lotus_archive.Service.Reads.{BatchLookup}
use lotus_archive.Service.Requests.{Request, serve}
use lotus_archive.Service.Walk.{IsKept}
use lotus_archive.Service.Walk.Requests.{serve-kept}

module _ (env : Environment) where
  abbrev pub Extends : World env → World env → Type 0
  Extends w w' = (more : List AccessAuditEvent) × (w'.events ≡ w.events ++ more)

  Extends-preorder : IsPreorder Extends
  Extends-preorder = record {
    stays = λ w. ([], sym (append-nil w.events));
    follows = λ s t u (a, p) (b, q). (a ++ b, q ∙ ap (λ l. l ++ b) p ∙ append_assoc s.events a b);
  }

  Extends-mint_hold :
      (i : String) (command : LegalHoldCreateCommand) (caller : CallerContext)
      → Moves Extends (mint_hold env i command caller)
  unfolding mint_hold ◌>>=◌ new_id utc_now repository_call
  Extends-mint_hold i command caller = record { at = λ w. Extends-preorder.stays w }

  Extends-IsKept : IsKept env Extends
  Extends-IsKept = record {
    preorder = Extends-preorder;
    drawn = λ w. Extends-preorder.stays w;
    audited = λ w event. (event ∷ [], refl);
    stored = λ w o. Extends-preorder.stays w;
    stepped = λ w r h. Extends-preorder.stays w;
    held = Extends-mint_hold;
  }

  -- Whatever requests are served and in whatever order, whether they succeed or raise, the audit trail
  -- is only appended to: every event recorded before is still there, unchanged and in its place.
  pub trail_is_append_only :
      (batch_lookup : BatchLookup) (requests : List Request) (w : World env)
      → (more : List AccessAuditEvent) × ((serve env batch_lookup requests w).events
          ≡ w.events ++ more)
  trail_is_append_only batch_lookup requests w =
      serve-kept env batch_lookup Extends-IsKept requests w
