-- ===== src/Service/Safety.antt =====
-- The invariant of the repository under the requests to the service.
use text.Mathlib.TextLemmas.{append_cancel_left}
use lotus_archive.Prelude.{
  ℕ, suc, ◌≤◌, String, ◌<>◌, ◌≡◌, ◌≢◌, refl, sym, none, some, List, arith, subst,
}
use lotus_archive.Prelude.Dict
use lotus_archive.Exec.{◌>>=◌}
use lotus_archive.Exec.Moves.{Moves}
use lotus_archive.Environment.{Environment}
use lotus_archive.Audit.{CallerContext}
use lotus_archive.Repository.State.{Repository}
use lotus_archive.Repository.Invariant.{IsConsistent}
use lotus_archive.Repository.Holds.{admit_and_record_legal_hold}
use lotus_archive.Repository.Preservation.{admit_and_record_legal_hold-IsConsistent}
use lotus_archive.Repository.Frames.{
  KeepsNames, begin_purge-KeepsNames, mark_purge_eligible-KeepsNames,
  mark_purge_not_eligible-KeepsNames, complete_purge-KeepsNames,
  refresh_legal_hold_summary-KeepsNames, release_and_record_legal_hold-KeepsNames,
  apply_lifecycle_transition-KeepsNames, save-holds, save-index, admit_and_record_legal_hold-holds,
  admit_and_record_legal_hold-index,
}
use lotus_archive.Repository.Writes
use lotus_archive.Repository.Writes.{Write, Write-IsConsistent, IsAdmissible}
use lotus_archive.Service.World.{World, new_id, utc_now, repository_call}
use lotus_archive.Service.Holds.{LegalHoldCreateCommand, mint_hold, new_hold}
use lotus_archive.Service.Reads.{BatchLookup}
use lotus_archive.Service.Requests.{Request, serve}
use lotus_archive.Service.Walk.{
  IsKept, Step, saved, begun, eligible, not_eligible, completed, refreshed, released, linked,
}
use lotus_archive.Service.Walk.Requests.{serve-kept}

-- No archive request is indexed under an empty identifier.
abbrev pub IsIndexNonempty : Repository → Type 0
IsIndexNonempty r = (q : String) → Dict.lookup q r.by_archive_request_id ≢ some ""

Step-Write : {r s : Repository} → IsIndexNonempty r → Step r s → Write r s
Step-Write n (saved m fresh id) =
    Writes.saved m (record { fresh = fresh; nonempty = n m.archive_request_id })
Step-Write n (begun i t) = Writes.begun i t
Step-Write n (eligible i at now) = Writes.eligible i at now
Step-Write n (not_eligible i now) = Writes.not_eligible i now
Step-Write n (completed i at now) = Writes.completed i at now
Step-Write n (refreshed i now) = Writes.refreshed i now
Step-Write n (released i h by why at now) = Writes.released i h by why at now
Step-Write n (linked i j t rel now) = Writes.linked i j t rel now

record Admits (r s : Repository) : Type 0 where
  index : IsIndexNonempty r → IsIndexNonempty s
  holds : (h : String) → Dict.lookup h r.legal_holds ≡ none → Dict.lookup h s.legal_holds ≡ none

KeepsNames-Admits : {r s : Repository} → KeepsNames r s → Admits r s
KeepsNames-Admits {r} {s} k = record {
  index = λ n q e. n q (subst (λ d. Dict.lookup q d ≡ some "") k.index e);
  holds = k.holds;
}

Step-Admits : {r s : Repository} → Step r s → Admits r s
Step-Admits (saved {r} m fresh id) = record {
  index = λ n q. save-index m r q id (n q);
  holds = λ h e. subst (λ d. Dict.lookup h d ≡ none) (sym (save-holds m r)) e;
}
Step-Admits (begun {r} i t) = KeepsNames-Admits (begin_purge-KeepsNames r i t)
Step-Admits (eligible {r} i at now) = KeepsNames-Admits (mark_purge_eligible-KeepsNames r i at now)
Step-Admits (not_eligible {r} i now) =
    KeepsNames-Admits (mark_purge_not_eligible-KeepsNames r i now)
Step-Admits (completed {r} i at now) = KeepsNames-Admits (complete_purge-KeepsNames r i at now)
Step-Admits (refreshed {r} i now) =
    KeepsNames-Admits (refresh_legal_hold_summary-KeepsNames r i now)
Step-Admits (released {r} i h by why at now) =
    KeepsNames-Admits (release_and_record_legal_hold-KeepsNames r i h by why at now)
Step-Admits (linked {r} i j t rel now) =
    KeepsNames-Admits (apply_lifecycle_transition-KeepsNames r i j t rel now)

module _ (env : Environment) where
  -- The repository is consistent, and the identifiers of holds that are still to be drawn are unused.
  pub record IsSafe (w : World env) : Type 0 where
    pub consistent : IsConsistent w.repository
    pub nonempty : IsIndexNonempty w.repository
    pub unused :
        (n : ℕ)
        → w.draws ≤ n
        → Dict.lookup ("hold_" <> env.uuid4_hex n) w.repository.legal_holds ≡ none

  abbrev pub AreDistinct : Type 0
  AreDistinct = (m n : ℕ) → env.uuid4_hex m ≡ env.uuid4_hex n → m ≡ n

  IsSafe-Step :
      (w : World env) (r : Repository)
      → Step w.repository r
      → IsSafe w
      → IsSafe (record w { repository = r })
  IsSafe-Step w r s h = record {
    consistent = Write-IsConsistent (Step-Write h.nonempty s) h.consistent;
    nonempty = (Step-Admits s).index h.nonempty;
    unused = λ n le. (Step-Admits s).holds ("hold_" <> env.uuid4_hex n) (h.unused n le);
  }

  module _ (distinct : AreDistinct) (w : World env) (h : IsSafe w) where
    other_hold :
        (n : ℕ) → n ≢ w.draws → "hold_" <> env.uuid4_hex n ≢ "hold_" <> env.uuid4_hex w.draws
    other_hold n ne e = ne (
        distinct n w.draws (append_cancel_left "hold_" (env.uuid4_hex n) (env.uuid4_hex w.draws) e))

    IsSafe-admit :
        (i : String) (command : LegalHoldCreateCommand) (caller : CallerContext) (at now : ℕ)
        → IsSafe (record w {
          repository =
              (admit_and_record_legal_hold i
                (new_hold ("hold_" <> env.uuid4_hex w.draws) i command caller at)
                now
                w.repository).1;
          draws = suc (suc (suc w.draws));
        })
    IsSafe-admit i command caller at now =
        let hold = new_hold ("hold_" <> env.uuid4_hex w.draws) i command caller at in
        record {
          consistent =
              admit_and_record_legal_hold-IsConsistent w.repository h.consistent i hold now refl
                refl (h.unused w.draws (omega arith));
          nonempty = λ q e. h.nonempty q (
              subst (λ d. Dict.lookup q d ≡ some "")
                (admit_and_record_legal_hold-index w.repository i hold now) e);
          unused = λ n le.
              admit_and_record_legal_hold-holds w.repository i hold now ("hold_" <> env.uuid4_hex n)
                (other_hold n (omega arith)) (h.unused n (omega arith));
        }

  -- what is safe before is safe after
  abbrev pub KeepsSafe : World env → World env → Type 0
  KeepsSafe w w' = IsSafe w → IsSafe w'

  KeepsSafe-mint_hold :
      AreDistinct
      → (i : String) (command : LegalHoldCreateCommand) (caller : CallerContext)
      → Moves KeepsSafe (mint_hold env i command caller)
  unfolding mint_hold ◌>>=◌ new_id utc_now repository_call
  KeepsSafe-mint_hold distinct i command caller = record {
    at = λ w h.
        IsSafe-admit distinct w h i command caller (env.utc_now (suc w.draws))
          (env.utc_now (suc (suc w.draws)));
  }

  pub KeepsSafe-IsKept : AreDistinct → IsKept env KeepsSafe
  KeepsSafe-IsKept distinct = record {
    preorder = record { stays = λ w h. h; follows = λ s t u a b h. b (a h) };
    drawn = λ w h. record {
      consistent = h.consistent;
      nonempty = h.nonempty;
      unused = λ n le. h.unused n (omega arith);
    };
    audited =
        λ w event h. record { consistent = h.consistent; nonempty = h.nonempty; unused = h.unused };
    stored =
        λ w o h. record { consistent = h.consistent; nonempty = h.nonempty; unused = h.unused };
    stepped = IsSafe-Step;
    held = KeepsSafe-mint_hold distinct;
  }

  -- Given identifiers that do not repeat, every sequence of requests, served from a state with a
  -- consistent repository, no empty identifier in its index and no hold under an identifier still to be
  -- drawn, ends in such a state, whichever of the requests raise.
  pub serve-IsSafe :
      AreDistinct
      → (batch_lookup : BatchLookup) (requests : List Request) (w : World env) → IsSafe w
      → IsSafe (serve env batch_lookup requests w)
  serve-IsSafe distinct batch_lookup requests w =
      serve-kept env batch_lookup (KeepsSafe-IsKept distinct) requests w
