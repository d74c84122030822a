-- ===== src/Service/Walk/Holds.antt =====
-- Setting and releasing a hold keep what their steps keep.
use lotus_archive.Prelude.{String, Option, none, some}
use lotus_archive.Exec.Moves.{Moves}
use lotus_archive.Environment.{Environment}
use lotus_archive.Models.{ArchiveDocumentMetadata, LegalHoldRecord}
use lotus_archive.Audit.{CallerContext}
use lotus_archive.Service.World.{World}
use lotus_archive.Service.Walk.{IsKept, walk_rules, Moves-release_and_record_legal_hold}
use lotus_archive.Service.Walk.Access.{
  Moves-record_allowed, Moves-get_tenant_authorized_document_metadata,
}
use lotus_archive.Service.Holds.{
  LegalHoldCreateCommand, mint_hold, admitted_hold, place_hold, set_legal_hold, released_hold,
  release_legal_hold,
}

module _ (env : Environment) {R : World env → World env → Type 0} (K : IsKept env R) where
  Moves-mint_hold :
      (i : String) (command : LegalHoldCreateCommand) (caller : CallerContext)
      → Moves R (mint_hold env i command caller)
  Moves-mint_hold i command caller = K.held i command caller

  Moves-admitted_hold :
      (hold : LegalHoldRecord) (i : String) (caller : CallerContext) (trace : String)
      (o : Option ArchiveDocumentMetadata)
      → Moves R (admitted_hold env hold i caller trace o)
  unfolding admitted_hold
  Moves-admitted_hold hold i caller trace none = search (walk_rules, Moves-record_allowed)
  Moves-admitted_hold hold i caller trace (some m) = search (walk_rules, Moves-record_allowed)

  Moves-place_hold :
      (o : Option LegalHoldRecord) (i : String) (command : LegalHoldCreateCommand)
      (caller : CallerContext) (trace : String)
      → Moves R (place_hold env o i command caller trace)
  unfolding place_hold
  Moves-place_hold (some existing) i command caller trace =
      search (walk_rules, Moves-record_allowed)
  Moves-place_hold none i command caller trace =
      search (walk_rules, Moves-mint_hold, Moves-admitted_hold)

  pub Moves-set_legal_hold :
      (i : String) (command : LegalHoldCreateCommand) (caller : CallerContext) (trace : String)
      → Moves R (set_legal_hold env i command caller trace)
  unfolding set_legal_hold
  Moves-set_legal_hold i command caller trace =
      search (walk_rules, Moves-get_tenant_authorized_document_metadata, Moves-place_hold)

  Moves-released_hold :
      (i : String) (caller : CallerContext) (trace : String)
      (o : Option (LegalHoldRecord × ArchiveDocumentMetadata))
      → Moves R (released_hold env i caller trace o)
  unfolding released_hold
  Moves-released_hold i caller trace none = search walk_rules
  Moves-released_hold i caller trace (some (hold, m)) = search (walk_rules, Moves-record_allowed)

  pub Moves-release_legal_hold :
      (i hold why : String) (caller : CallerContext) (trace : String)
      → Moves R (release_legal_hold env i hold why caller trace)
  unfolding release_legal_hold
  Moves-release_legal_hold i hold why caller trace =
      search
        (
          walk_rules, Moves-get_tenant_authorized_document_metadata,
          Moves-release_and_record_legal_hold, Moves-released_hold,
        )
        depth 9
